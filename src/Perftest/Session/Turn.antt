-- ===== src/Perftest/Session/Turn.antt =====
-- The senders of examples/perftest.cc one after the other: whose turn it is.
use ucxpp.Base.{ℕ, zero, suc, ◌≡◌, refl, ap, List, [], ◌∷◌, true, some, get_elem?, set, arith}
use ucxpp.Perftest.{Phase, unstarted, waiting, returned, unstarted_tasks}
use ucxpp.Perftest.Counter.{total}
use ucxpp.Perftest.Ending.{is_live}

-- All tasks before the one at `i` have returned.
abbrev pub AllBefore : (i : ℕ) → List Phase → Type 0
AllBefore zero ps = Unit
AllBefore (suc i) [] = Unit
AllBefore (suc i) (returned ∷ ps) = AllBefore i ps
AllBefore (suc i) (_ ∷ ps) = ⊥

-- A message that was begun and has not ended.
abbrev pub in_hand : Phase → ℕ
in_hand waiting = 1
in_hand _ = 0

abbrev pub AllUnstarted : List Phase → Type 0
AllUnstarted [] = Unit
AllUnstarted (unstarted ∷ ps) = AllUnstarted ps
AllUnstarted (_ ∷ ps) = ⊥

-- Tasks that have returned, one at work at most, and tasks that were not called.
abbrev pub IsInTurn : List Phase → Type 0
IsInTurn [] = Unit
IsInTurn (returned ∷ ps) = IsInTurn ps
IsInTurn (_ ∷ ps) = AllUnstarted ps

pub AllUnstarted-IsInTurn : (ps : List Phase) → AllUnstarted ps → IsInTurn ps
AllUnstarted-IsInTurn [] h = tt
AllUnstarted-IsInTurn (unstarted ∷ ps) h = h
AllUnstarted-IsInTurn (waiting ∷ ps) h = absurd h
AllUnstarted-IsInTurn (returned ∷ ps) h = absurd h

pub AllUnstarted-in_hand : (ps : List Phase) → AllUnstarted ps → total in_hand ps ≡ 0
AllUnstarted-in_hand [] h = refl
AllUnstarted-in_hand (unstarted ∷ ps) h = omega (arith, AllUnstarted-in_hand ps h)
AllUnstarted-in_hand (waiting ∷ ps) h = absurd h
AllUnstarted-in_hand (returned ∷ ps) h = absurd h

pub unstarted_tasks-AllUnstarted : (n : ℕ) → AllUnstarted (unstarted_tasks n)
unstarted_tasks-AllUnstarted zero = tt
unstarted_tasks-AllUnstarted (suc n) = unstarted_tasks-AllUnstarted n

pub get_elem?-set :
    (ps : List Phase) (i : ℕ) (v : Phase) {p : Phase}
    → get_elem? ps i ≡ some p
    → get_elem? (set ps i v) i ≡ some v
get_elem?-set [] i v e = cc
get_elem?-set (x ∷ ps) zero v e = refl
get_elem?-set (x ∷ ps) (suc i) v e = get_elem?-set ps i v e

-- A task whose turn it is.
abbrev HasTurn : List Phase → (i : ℕ) → Phase → Type 0
HasTurn ps i p =
    (total in_hand ps ≡ in_hand p)
    × ((v : Phase) → (total in_hand (set ps i v) ≡ in_hand v) × IsInTurn (set ps i v))

settled : (ps : List Phase) (v : Phase) → AllUnstarted ps → IsInTurn (v ∷ ps)
settled ps returned t = AllUnstarted-IsInTurn ps t
settled ps unstarted t = t
settled ps waiting t = t

pub in_turn :
    (ps : List Phase) (i : ℕ) (p : Phase)
    → is_live (some p) ≡ true
    → get_elem? ps i ≡ some p
    → AllBefore i ps
    → IsInTurn ps
    → HasTurn ps i p
in_turn [] i p live e before t = cc
in_turn (returned ∷ ps) zero p live e before t =
    let same : returned ≡ p = cc in cc (ap (λ (q : Phase). is_live (some q)) same)
in_turn (unstarted ∷ ps) zero p live e before t =
    let same : unstarted ≡ p = cc in
    let rest = AllUnstarted-in_hand ps t in
    (omega (arith, ap in_hand same, rest), λ v. (omega (arith, rest), settled ps v t))
in_turn (waiting ∷ ps) zero p live e before t =
    let same : waiting ≡ p = cc in
    let rest = AllUnstarted-in_hand ps t in
    (omega (arith, ap in_hand same, rest), λ v. (omega (arith, rest), settled ps v t))
in_turn (returned ∷ ps) (suc i) p live e before t =
    let (here, after) = in_turn ps i p live e before t in
    (omega (arith, here), λ v. (omega (arith, (after v).0), (after v).1))
in_turn (unstarted ∷ ps) (suc i) p live e before t = absurd before
in_turn (waiting ∷ ps) (suc i) p live e before t = absurd before
