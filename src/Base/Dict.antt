-- ===== src/Base/Dict.antt =====
-- `std::unordered_map` with a number as its key, as an association list.
use Prim.Native.Nat.{ℕ}
use mathlib.Core.Path.{◌≡◌}
use mathlib.Core.Bool.{Bool, true, false}
use mathlib.Core.Option.{Option, none, some}
use mathlib.Core.List.{List, [], ◌∷◌}
use native.Mathlib.Omega.{arith}
use ucxpp.Base.Tests.{◌==◌, if◌then◌else◌}

abbrev pub Dict {ℓ} : Type ℓ → Type ℓ
Dict V = List (ℕ × V)

abbrev pub is_some {ℓ} : {A : Type ℓ} → Option A → Bool
is_some none = false
is_some (some a) = true

module _ {ℓ} {V : Type ℓ} where
  unfoldable pub lookup : ℕ → Dict V → Option V
  lookup k [] = none
  lookup k ((j, v) ∷ d) = if k == j then some v else lookup k d

  -- `insert` keeps the value of a key that is there.
  unfoldable pub insert : ℕ → V → Dict V → Dict V
  insert k v [] = (k, v) ∷ []
  insert k v ((j, u) ∷ d) = (j, u) ∷ (if k == j then d else insert k v d)

  unfoldable pub erase : ℕ → Dict V → Dict V
  erase k [] = []
  erase k ((j, u) ∷ d) = if k == j then erase k d else (j, u) ∷ erase k d

  -- A change of the value at a key that is there.
  unfoldable pub adjust : ℕ → (V → V) → Dict V → Dict V
  adjust k f [] = []
  adjust k f ((j, u) ∷ d) = if k == j then (j, f u) ∷ d else (j, u) ∷ adjust k f d

  pub lookup-insert :
      (k i : ℕ) (v : V) (d : Dict V)
      → lookup i (insert k v d)
        ≡ (if i == k then (if is_some (lookup k d) then lookup k d else some v) else lookup i d)
  unfolding lookup insert
  lookup-insert k i v [] = ground arith
  lookup-insert k i v ((j, u) ∷ d) = ground (arith, lookup-insert k i v d)

  pub lookup-erase :
      (k i : ℕ) (d : Dict V) → lookup i (erase k d) ≡ (if i == k then none else lookup i d)
  unfolding lookup erase
  lookup-erase k i [] = ground arith
  lookup-erase k i ((j, u) ∷ d) = ground (arith, lookup-erase k i d)

  pub lookup-adjust :
      (k i : ℕ) (f : V → V) (d : Dict V)
      → lookup i (adjust k f d)
        ≡ (if i == k then elim (lookup k d) [ none ↦ none | some v ↦ some (f v) ] else lookup i d)
  unfolding lookup adjust
  lookup-adjust k i f [] = ground arith
  lookup-adjust k i f ((j, u) ∷ d) = ground (arith, lookup-adjust k i f d)
