-- ===== src/Perftest/Main/Waiting.antt =====
-- examples/perftest.cc: the tests of `worker.use_count()` in the loops of `main`.
use ucxpp.Base.{ℕ, ◌≤◌, ◌≡◌, refl, ap, List, [], ◌∷◌, ◌++◌, Bool, true, false, ltb, length, arith}
use ucxpp.Base.Loops.{replicate}
use ucxpp.Perftest.Main.{shared_by}

-- More than one pointer to the worker, each time.
abbrev pub AreShared : List ℕ → Type 0
AreShared [] = Unit
AreShared (count ∷ counts) = (2 ≤ count) × AreShared counts

pub shared_by-busy :
    (busy more : List ℕ) (last : ℕ)
    → AreShared busy
    → last ≤ 1
    → shared_by (busy ++ last ∷ more) ≡ replicate (length busy) true ++ false ∷ shared_by more
shared_by-busy [] more last h e =
    let t : ltb 1 last ≡ false = ground arith in ap (λ (b : Bool). b ∷ shared_by more) t
shared_by-busy (count ∷ busy) more last h e =
    let t : ltb 1 count ≡ true = ground (arith, h.0) in
    rw (t, shared_by-busy busy more last h.1 e) refl
