-- ===== src/Base/Loops.antt =====
-- `while (test) body`, where the environment decides what the test reads.
use Prim.Native.Nat.{ℕ, zero, suc}
use mathlib.Core.Path.{◌≡◌, refl}
use mathlib.Core.Bool.{Bool, true, false}
use mathlib.Core.Option.{Option, none, some}
use mathlib.Core.List.{List, [], ◌∷◌, ◌++◌}

abbrev pub replicate {ℓ} : {A : Type ℓ} → ℕ → A → List A
replicate zero a = []
replicate (suc n) a = a ∷ replicate n a

-- What is done, by what the test reads each time, and what is done behind the loop; nothing while the
-- last test read has not ended it.
unfoldable pub while_true {ℓ} : {A : Type ℓ} → List Bool → A → Option (List A) → Option (List A)
while_true [] body behind = none
while_true (false ∷ tests) body behind = behind
while_true (true ∷ tests) body behind = elim (while_true tests body behind) [
  | none ↦ none
  | some l ↦ some (body ∷ l)
]

-- The body is done once for each test that holds, before the one that does not.
pub while_true-ends {ℓ} :
    {A : Type ℓ} (n : ℕ) (more : List Bool) (body : A) (behind : List A)
    → while_true (replicate n true ++ false ∷ more) body (some behind)
      ≡ some (replicate n body ++ behind)
unfolding while_true
while_true-ends zero more body behind = refl
while_true-ends (suc n) more body behind = rw (while_true-ends n more body behind) refl
