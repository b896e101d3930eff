-- ===== src/Memory/PackedOwner.antt =====
-- The buffer that a `packed_memory_rkey` owns (src/memory.cc).
use ucxpp.Base.{ℕ, ◌+◌, ◌≡◌, ◌≢◌, refl, List, Bool, true, false, arith, ◌==◌, if◌then◌else◌}
use ucxpp.Errors.{Status, ok, check_ucs_status}
use ucxpp.Ucx.{Run, Event, ucp_rkey_buffer_release, count_if, is_undefined}
use ucxpp.Raii.{Owner, Op, run, empty, owners, created}
use ucxpp.Raii.Conserved.{run-conserved}
use ucxpp.Context.{Context}
use ucxpp.Memory.{PackedRkey, packed_rkey_move, packed_rkey_destroy, pack_rkey, local_memory_new}

abbrev pub releases_buffer : ℕ → Event → Bool
releases_buffer h (ucp_rkey_buffer_release b) = b == h
releases_buffer h _ = false

-- The destructor follows no pointer of its own.
abbrev pub is_valid : PackedRkey → Bool
is_valid k = true

-- `pack_rkey` on a handle that was not moved from: its context and handle, and UCX's answer.
abbrev pub PackedMake : Type 0
PackedMake = Context × ℕ × (Status × ℕ × ℕ)

abbrev pub make : PackedMake → Run PackedRkey
make c = pack_rkey (local_memory_new c.0 c.1) c.2

pub make-frees : (c : PackedMake) (h : ℕ) → h ≢ 0 → count_if (releases_buffer h) (make c).0 ≡ 0
unfolding pack_rkey local_memory_new check_ucs_status
make-frees c h nz = ground arith

pub make-undefined : (c : PackedMake) → count_if is_undefined (make c).0 ≡ 0
unfolding pack_rkey local_memory_new check_ucs_status
make-undefined c = ground arith

pub make-is_valid : (c : PackedMake) (o : PackedRkey) → (make c).1 ≡ ok o → is_valid o ≡ true
unfolding pack_rkey local_memory_new check_ucs_status
make-is_valid c o e = ground arith

pub handle-move_new : (o : PackedRkey) → (packed_rkey_move o).0.buffer_ ≡ o.buffer_
unfolding packed_rkey_move
handle-move_new o = refl

pub handle-move_old : (o : PackedRkey) → (packed_rkey_move o).1.buffer_ ≡ 0
unfolding packed_rkey_move
handle-move_old o = refl

pub move-is_valid :
    (o : PackedRkey)
    → is_valid o ≡ true
    → (is_valid (packed_rkey_move o).0 ≡ true) × (is_valid (packed_rkey_move o).1 ≡ true)
unfolding packed_rkey_move
move-is_valid o h = (h, refl)

pub destroy-frees :
    (o : PackedRkey) (h : ℕ)
    → h ≢ 0
    → is_valid o ≡ true
    → count_if (releases_buffer h) (packed_rkey_destroy o) ≡ (if o.buffer_ == h then 1 else 0)
unfolding packed_rkey_destroy
destroy-frees o h nz v = ground arith

pub destroy-undefined :
    (o : PackedRkey) → is_valid o ≡ true → count_if is_undefined (packed_rkey_destroy o) ≡ 0
unfolding packed_rkey_destroy
destroy-undefined o v = ground arith

abbrev pub packed_rkey_owner : Owner PackedRkey PackedMake
packed_rkey_owner = record {
  make = make;
  handle = λ o. o.buffer_;
  move = packed_rkey_move;
  destroy = packed_rkey_destroy;
  frees = releases_buffer;
  is_valid = is_valid;
  make-frees = make-frees;
  make-undefined = make-undefined;
  make-is_valid = make-is_valid;
  handle-move_new = handle-move_new;
  handle-move_old = handle-move_old;
  move-is_valid = move-is_valid;
  destroy-frees = destroy-frees;
  destroy-undefined = destroy-undefined;
}

-- Whatever a program does by `pack_rkey`, move construction and destruction, each packed buffer but
-- null has been released, or is still owned by a living object, exactly as often as UCX gave it out;
-- and nothing undefined happens.
pub packed_rkey-conserved :
    (ops : List (Op PackedMake)) (h : ℕ)
    → h ≢ 0
    → let s = run packed_rkey_owner empty ops in
      (count_if (releases_buffer h) s.events + owners packed_rkey_owner h s.live
        ≡ created packed_rkey_owner h ops)
      × (count_if is_undefined s.events ≡ 0)
packed_rkey-conserved = run-conserved packed_rkey_owner
