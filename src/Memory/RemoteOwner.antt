-- ===== src/Memory/RemoteOwner.antt =====
-- The remote key that a `remote_memory_handle` owns (src/memory.cc).
use ucxpp.Base.{ℕ, ◌+◌, ◌≡◌, ◌≢◌, refl, List, Bool, true, false, arith, ◌==◌, if◌then◌else◌}
use ucxpp.Errors.{Status, ok, check_ucs_status}
use ucxpp.Ucx.{Run, Event, ucp_rkey_destroy, count_if, is_undefined}
use ucxpp.Raii.{Owner, Op, run, empty, owners, created}
use ucxpp.Raii.Conserved.{run-conserved}
use ucxpp.Endpoint.{Endpoint}
use ucxpp.Memory.{RemoteMemory, remote_memory_move, remote_memory_destroy, remote_memory_new}

abbrev pub destroys_rkey : ℕ → Event → Bool
destroys_rkey h (ucp_rkey_destroy k) = k == h
destroys_rkey h _ = false

-- The destructor follows no pointer of its own.
abbrev pub is_valid : RemoteMemory → Bool
is_valid m = true

-- The constructor's endpoint and buffer, and UCX's answer.
abbrev pub RemoteMake : Type 0
RemoteMake = Endpoint × ℕ × (Status × ℕ)

abbrev pub make : RemoteMake → Run RemoteMemory
make c = remote_memory_new c.0 c.1 c.2

pub make-frees : (c : RemoteMake) (h : ℕ) → h ≢ 0 → count_if (destroys_rkey h) (make c).0 ≡ 0
unfolding remote_memory_new check_ucs_status
make-frees c h nz = ground arith

pub make-undefined : (c : RemoteMake) → count_if is_undefined (make c).0 ≡ 0
unfolding remote_memory_new check_ucs_status
make-undefined c = ground arith

pub make-is_valid : (c : RemoteMake) (o : RemoteMemory) → (make c).1 ≡ ok o → is_valid o ≡ true
unfolding remote_memory_new check_ucs_status
make-is_valid c o e = ground arith

pub handle-move_new : (o : RemoteMemory) → (remote_memory_move o).0.rkey_ ≡ o.rkey_
unfolding remote_memory_move
handle-move_new o = refl

pub handle-move_old : (o : RemoteMemory) → (remote_memory_move o).1.rkey_ ≡ 0
unfolding remote_memory_move
handle-move_old o = refl

pub move-is_valid :
    (o : RemoteMemory)
    → is_valid o ≡ true
    → (is_valid (remote_memory_move o).0 ≡ true) × (is_valid (remote_memory_move o).1 ≡ true)
unfolding remote_memory_move
move-is_valid o h = (h, refl)

pub destroy-frees :
    (o : RemoteMemory) (h : ℕ)
    → h ≢ 0
    → is_valid o ≡ true
    → count_if (destroys_rkey h) (remote_memory_destroy o) ≡ (if o.rkey_ == h then 1 else 0)
unfolding remote_memory_destroy
destroy-frees o h nz v = ground arith

pub destroy-undefined :
    (o : RemoteMemory) → is_valid o ≡ true → count_if is_undefined (remote_memory_destroy o) ≡ 0
unfolding remote_memory_destroy
destroy-undefined o v = ground arith

abbrev pub remote_memory_owner : Owner RemoteMemory RemoteMake
remote_memory_owner = record {
  make = make;
  handle = λ o. o.rkey_;
  move = remote_memory_move;
  destroy = remote_memory_destroy;
  frees = destroys_rkey;
  is_valid = is_valid;
  make-frees = make-frees;
  make-undefined = make-undefined;
  make-is_valid = make-is_valid;
  handle-move_new = handle-move_new;
  handle-move_old = handle-move_old;
  move-is_valid = move-is_valid;
  destroy-frees = destroy-frees;
  destroy-undefined = destroy-undefined;
}

-- Whatever a program does by the constructor, move construction and destruction, each remote key but
-- null has been destroyed, or is still owned by a living object, exactly as often as UCX unpacked it;
-- and nothing undefined happens.
pub remote_memory-conserved :
    (ops : List (Op RemoteMake)) (h : ℕ)
    → h ≢ 0
    → let s = run remote_memory_owner empty ops in
      (count_if (destroys_rkey h) s.events + owners remote_memory_owner h s.live
        ≡ created remote_memory_owner h ops)
      × (count_if is_undefined s.events ≡ 0)
remote_memory-conserved = run-conserved remote_memory_owner
