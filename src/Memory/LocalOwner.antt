-- ===== src/Memory/LocalOwner.antt =====
-- The memory region that a `local_memory_handle` owns (src/memory.cc).
use ucxpp.Base.{
  ℕ, ◌+◌, ◌≡◌, ◌≢◌, refl, List, none, some, Bool, true, false, arith, ◌==◌, ◌&&◌, if◌then◌else◌,
}
use ucxpp.Errors.{Status, ok, succeeded, check_ucs_status}
use ucxpp.Ucx.{Run, Event, ucp_mem_unmap, count_if, is_undefined, ◌>>=◌, pure}
use ucxpp.Raii.{Owner, Op, run, empty, owners, created, added}
use ucxpp.Raii.Conserved.{run-conserved}
use ucxpp.Context.{Context}
use ucxpp.Memory.{
  LocalMemory, local_memory_move, local_memory_destroy, register_mem, allocate_mem,
  local_memory_new,
}

abbrev pub unmaps : ℕ → Event → Bool
unmaps h (ucp_mem_unmap c m) = m == h
unmaps h _ = false

-- The destructor follows `ctx_` unless the handle is null.
abbrev pub is_valid : LocalMemory → Bool
is_valid m = if m.mem_ == 0 then true else elim m.ctx_ [ none ↦ false | some c ↦ true ]

-- The static functions that make handles, with their arguments and UCX's answers.
pub data LocalMake : Type 0 where
  registers : Context → (address length : ℕ) → (mapped : Status × ℕ) → LocalMake
  allocates : Context → (length : ℕ) → (mapped queried : Status × ℕ) → LocalMake

abbrev pub make : LocalMake → Run LocalMemory
make (registers ctx address length mapped) = register_mem ctx address length mapped
make (allocates ctx length mapped queried) =
    allocate_mem ctx length mapped queried >>= λ r. pure r.1

pub make-frees : (c : LocalMake) (h : ℕ) → h ≢ 0 → count_if (unmaps h) (make c).0 ≡ 0
unfolding register_mem allocate_mem check_ucs_status
make-frees (registers ctx address length mapped) h nz = ground arith
make-frees (allocates ctx length mapped queried) h nz = ground arith

pub make-undefined : (c : LocalMake) → count_if is_undefined (make c).0 ≡ 0
unfolding register_mem allocate_mem check_ucs_status
make-undefined (registers ctx address length mapped) = ground arith
make-undefined (allocates ctx length mapped queried) = ground arith

pub make-is_valid : (c : LocalMake) (o : LocalMemory) → (make c).1 ≡ ok o → is_valid o ≡ true
unfolding register_mem allocate_mem check_ucs_status
make-is_valid (registers ctx address length mapped) o e = ground arith
make-is_valid (allocates ctx length mapped queried) o e = ground arith

pub handle-move_new : (o : LocalMemory) → (local_memory_move o).0.mem_ ≡ o.mem_
unfolding local_memory_move
handle-move_new o = refl

pub handle-move_old : (o : LocalMemory) → (local_memory_move o).1.mem_ ≡ 0
unfolding local_memory_move
handle-move_old o = refl

pub move-is_valid :
    (o : LocalMemory)
    → is_valid o ≡ true
    → (is_valid (local_memory_move o).0 ≡ true) × (is_valid (local_memory_move o).1 ≡ true)
unfolding local_memory_move
move-is_valid o h = (h, refl)

pub destroy-frees :
    (o : LocalMemory) (h : ℕ)
    → h ≢ 0
    → is_valid o ≡ true
    → count_if (unmaps h) (local_memory_destroy o) ≡ (if o.mem_ == h then 1 else 0)
unfolding local_memory_destroy
destroy-frees o h nz v = ground arith

pub destroy-undefined :
    (o : LocalMemory) → is_valid o ≡ true → count_if is_undefined (local_memory_destroy o) ≡ 0
unfolding local_memory_destroy
destroy-undefined o v = ground arith

abbrev pub local_memory_owner : Owner LocalMemory LocalMake
local_memory_owner = record {
  make = make;
  handle = λ o. o.mem_;
  move = local_memory_move;
  destroy = local_memory_destroy;
  frees = unmaps;
  is_valid = is_valid;
  make-frees = make-frees;
  make-undefined = make-undefined;
  make-is_valid = make-is_valid;
  handle-move_new = handle-move_new;
  handle-move_old = handle-move_old;
  move-is_valid = move-is_valid;
  destroy-frees = destroy-frees;
  destroy-undefined = destroy-undefined;
}

-- Whatever a program does by `register_mem`, `allocate_mem`, move construction and destruction, each
-- native memory handle but null has been unmapped, or is still owned by a living object, exactly as
-- often as the two functions returned it; and no destructor follows a null context.
pub local_memory-conserved :
    (ops : List (Op LocalMake)) (h : ℕ)
    → h ≢ 0
    → let s = run local_memory_owner empty ops in
      (count_if (unmaps h) s.events + owners local_memory_owner h s.live
        ≡ created local_memory_owner h ops)
      × (count_if is_undefined s.events ≡ 0)
local_memory-conserved = run-conserved local_memory_owner

-- `allocate_mem` never unmaps the region that UCX mapped for it, and an object owns that region
-- exactly if the query of its address succeeded too: if only the query fails, nobody owns it.
pub allocate_mem-owned :
    (ctx : Context) (length : ℕ) (mapped queried : Status × ℕ)
    → let r = make (allocates ctx length mapped queried) in
      (count_if (unmaps mapped.1) r.0 ≡ 0)
      × (owners local_memory_owner mapped.1 (added local_memory_owner r.1)
          ≡ (if succeeded mapped.0 && succeeded queried.0 then 1 else 0))
unfolding allocate_mem local_memory_new check_ucs_status
allocate_mem-owned ctx length mapped queried = ground arith
