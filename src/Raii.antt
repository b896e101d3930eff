-- ===== src/Raii.antt =====
-- Objects that own a native handle and may be moved from: `local_memory_handle`, `packed_memory_rkey`
-- and `remote_memory_handle` of include/ucxpp/memory.h and `local_address` of
-- include/ucxpp/address.h. `Owner` is what their operations promise; a script is what a program does
-- with them.
pub mod Conserved
use ucxpp.Base.{
  ℕ, ◌+◌, ◌≡◌, ◌≢◌, List, [], ◌∷◌, ◌++◌, Option, none, some, Bool, true, ◌==◌, if◌then◌else◌,
  get_elem?, set, zero, suc,
}
use ucxpp.Errors.{Result, ok, err}
use ucxpp.Ucx.{Event, Run, count_if, is_undefined}

-- The operations of a class `O` whose constructors are the values of `C`, and their laws. The handle
-- 0 is null. `frees h` tells the calls that give the handle `h` back, and `is_valid` the objects whose
-- destructor may run.
pub record Owner (O C : Type 0) : Type 0 where
  pub make : C → Run O
  pub handle : O → ℕ
  pub move : O → O × O
  pub destroy : O → List Event
  pub frees : ℕ → Event → Bool
  pub is_valid : O → Bool
  pub make-frees : (c : C) (h : ℕ) → h ≢ 0 → count_if (frees h) (make c).0 ≡ 0
  pub make-undefined : (c : C) → count_if is_undefined (make c).0 ≡ 0
  pub make-is_valid : (c : C) (o : O) → (make c).1 ≡ ok o → is_valid o ≡ true
  pub handle-move_new : (o : O) → handle (move o).0 ≡ handle o
  pub handle-move_old : (o : O) → handle (move o).1 ≡ 0
  pub move-is_valid :
      (o : O) → is_valid o ≡ true → (is_valid (move o).0 ≡ true) × (is_valid (move o).1 ≡ true)
  pub destroy-frees :
      (o : O) (h : ℕ)
      → h ≢ 0
      → is_valid o ≡ true
      → count_if (frees h) (destroy o) ≡ (if handle o == h then 1 else 0)
  pub destroy-undefined : (o : O) → is_valid o ≡ true → count_if is_undefined (destroy o) ≡ 0

-- What a program does: it runs a constructor, move-constructs a new object from the one at a
-- position, or ends the life of the one at a position.
pub data Op (C : Type 0) : Type 0 where
  create : C → Op C
  move_from : ℕ → Op C
  destroy : ℕ → Op C

pub record Store (O : Type 0) : Type 0 where
  pub live : List O
  pub events : List Event

abbrev pub remove_at {ℓ} : {A : Type ℓ} → List A → ℕ → List A
remove_at [] i = []
remove_at (x ∷ xs) zero = xs
remove_at (x ∷ xs) (suc i) = x ∷ remove_at xs i

module _ {O C : Type 0} (w : Owner O C) where
  abbrev pub held : ℕ → O → ℕ
  held h o = if w.handle o == h then 1 else 0

  -- How many of the living objects own the handle.
  abbrev pub owners : ℕ → List O → ℕ
  owners h [] = 0
  owners h (o ∷ os) = held h o + owners h os

  abbrev pub added : Result O → List O
  added (ok o) = o ∷ []
  added (err e) = []

  unfoldable pub step : Store O → Op C → Store O
  step s (create c) = record {
    live = s.live ++ added (w.make c).1;
    events = s.events ++ (w.make c).0;
  }
  step s (move_from i) = elim (get_elem? s.live i) [
    | none ↦ s
    | some o ↦ record s { live = set s.live i (w.move o).1 ++ (w.move o).0 ∷ [] }
  ]
  step s (destroy i) = elim (get_elem? s.live i) [
    | none ↦ s
    | some o ↦ record { live = remove_at s.live i; events = s.events ++ w.destroy o }
  ]

  unfoldable pub run : Store O → List (Op C) → Store O
  unfolding step
  run s [] = s
  run s (op ∷ ops) = run (step s op) ops

  -- How many objects the script's constructors hand the handle to.
  abbrev pub created : ℕ → List (Op C) → ℕ
  created h [] = 0
  created h (create c ∷ ops) = owners h (added (w.make c).1) + created h ops
  created h (move_from i ∷ ops) = created h ops
  created h (destroy i ∷ ops) = created h ops

abbrev pub empty : {O : Type 0} → Store O
empty = record { live = []; events = [] }
