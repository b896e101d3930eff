-- ===== src/Address/Ownership.antt =====
-- The native address that a `local_address` owns (src/address.cc).
use ucxpp.Base.{
  ℕ, ◌+◌, ◌≡◌, ◌≢◌, refl, List, [], ◌∷◌, none, some, Bool, true, false, arith, ◌==◌, if◌then◌else◌,
}
use ucxpp.Errors.{Status, ok, check_ucs_status}
use ucxpp.Ucx.{Run, Event, ucp_worker_release_address, count_if, is_undefined}
use ucxpp.Worker.{Worker}
use ucxpp.Raii.{Owner, Op, run, empty, owners, created}
use ucxpp.Raii.Conserved.{run-conserved}
use ucxpp.Address.{
  LocalAddress, local_address_move, local_address_assign, local_address_destroy, get_address,
}

abbrev pub releases_address : ℕ → Event → Bool
releases_address h (ucp_worker_release_address w a) = a == h
releases_address h _ = false

-- The destructor may follow `worker_` unless the address is null.
abbrev pub has_worker : LocalAddress → Bool
has_worker a = if a.address_ == 0 then true else elim a.worker_ [ none ↦ false | some w ↦ true ]

-- `worker::get_address` is the constructor that programs use: a worker and UCX's answer.
abbrev pub GetAddress : Type 0
GetAddress = Worker × Status × ℕ × ℕ

abbrev pub make : GetAddress → Run LocalAddress
make c = get_address c.0 (c.1, c.2, c.3)

pub make-frees : (c : GetAddress) (h : ℕ) → h ≢ 0 → count_if (releases_address h) (make c).0 ≡ 0
unfolding get_address check_ucs_status
make-frees c h nz = ground arith

pub make-undefined : (c : GetAddress) → count_if is_undefined (make c).0 ≡ 0
unfolding get_address check_ucs_status
make-undefined c = ground arith

pub make-has_worker : (c : GetAddress) (a : LocalAddress) → (make c).1 ≡ ok a → has_worker a ≡ true
unfolding get_address check_ucs_status
make-has_worker c a e = ground arith

pub address-move_new : (a : LocalAddress) → (local_address_move a).0.address_ ≡ a.address_
unfolding local_address_move
address-move_new a = refl

pub address-move_old : (a : LocalAddress) → (local_address_move a).1.address_ ≡ 0
unfolding local_address_move
address-move_old a = refl

pub move-has_worker :
    (a : LocalAddress)
    → has_worker a ≡ true
    → (has_worker (local_address_move a).0 ≡ true) × (has_worker (local_address_move a).1 ≡ true)
unfolding local_address_move
move-has_worker a h = (h, refl)

pub destroy-releases :
    (a : LocalAddress) (h : ℕ)
    → h ≢ 0
    → has_worker a ≡ true
    → count_if (releases_address h) (local_address_destroy a) ≡ (if a.address_ == h then 1 else 0)
unfolding local_address_destroy
destroy-releases a h nz v = ground arith

pub destroy-undefined :
    (a : LocalAddress) → has_worker a ≡ true → count_if is_undefined (local_address_destroy a) ≡ 0
unfolding local_address_destroy
destroy-undefined a v = ground arith

abbrev pub local_address_owner : Owner LocalAddress GetAddress
local_address_owner = record {
  make = make;
  handle = λ a. a.address_;
  move = local_address_move;
  destroy = local_address_destroy;
  frees = releases_address;
  is_valid = has_worker;
  make-frees = make-frees;
  make-undefined = make-undefined;
  make-is_valid = make-has_worker;
  handle-move_new = address-move_new;
  handle-move_old = address-move_old;
  move-is_valid = move-has_worker;
  destroy-frees = destroy-releases;
  destroy-undefined = destroy-undefined;
}

-- Whatever a program does by `worker::get_address`, move construction and destruction, each native
-- address but null has been released, or is still owned by a living object, exactly as often as UCX
-- gave it out; and no destructor follows a null worker.
pub local_address-conserved :
    (ops : List (Op GetAddress)) (h : ℕ)
    → h ≢ 0
    → let s = run local_address_owner empty ops in
      (count_if (releases_address h) s.events + owners local_address_owner h s.live
        ≡ created local_address_owner h ops)
      × (count_if is_undefined s.events ≡ 0)
local_address-conserved = run-conserved local_address_owner

-- Where an object holds an address, and another object another one, the move assignment from the
-- other object releases the address by no call, and neither of the two owns it afterwards.
pub local_address_assign-leak :
    (self other : LocalAddress)
    → self.address_ ≢ 0
    → other.address_ ≢ self.address_
    → let (events, self', other') = local_address_assign self other in
      (count_if (releases_address self.address_) events ≡ 0)
      × (owners local_address_owner self.address_ (self' ∷ other' ∷ []) ≡ 0)
      × (owners local_address_owner self.address_ (self ∷ []) ≡ 1)
unfolding local_address_assign
local_address_assign-leak self other nz ne = ground arith
