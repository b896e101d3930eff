-- ===== src/Helloworld/Finish.antt =====
-- The client and the server of examples/helloworld.cc come to the end of their turns.
use ucxpp.Base.{
  ℕ, ◌-◌, ◌*◌, ◌≤◌, ◌≡◌, refl, sym, ◌∙◌, List, [], ◌∷◌, append-nil, Bool, true, false, not, none,
  length, arith,
}
use ucxpp.Helloworld.{
  Atomics, client_turns, ClientAt, operates, rings, hears, ServerAt, listens, prints, answers,
  System, client_move, server_move, move, moves, rendezvous,
}
use ucxpp.Helloworld.Bells.{
  Turns, operating, ringing, rung, printing, answering, answered, move-Turns, moves-Turns,
  client_turns-values, six_values,
}

-- The moves to come.
abbrev left_of : ClientAt → ServerAt → (n bells : ℕ) → ℕ
left_of operates server n bells = 6 * n
left_of rings server n bells = 6 * n - 1
left_of hears listens n bells = 6 * n - 2 - 3 * bells
left_of hears prints n bells = 6 * n - 3
left_of hears answers n bells = 6 * n - 4

abbrev left : System → ℕ
left s = left_of s.client_at s.server_at (length s.turns) s.to_client

-- Rounds in each of which both get a chance, once each: the one first or the other.
abbrev pub paired : List Bool → List Bool
paired [] = []
paired (b ∷ bs) = b ∷ not b ∷ paired bs

module _ (A : Atomics) where
  pair-left :
      (all : List ℕ) (b : Bool) (s : System)
      → Turns A all s
      → left (move A (not b) (move A b s)) ≤ left s - 1
  unfolding move client_move server_move
  pair-left all true _ (operating [] v l printed e) = omega arith
  pair-left all true _ (operating (t ∷ ts) v l printed e) = omega arith
  pair-left all true _ (ringing t ts v l printed e) = omega arith
  pair-left all true _ (rung t ts v l printed e) = omega arith
  pair-left all true _ (printing t ts v l printed e) = omega arith
  pair-left all true _ (answering t ts v l printed e) = omega arith
  pair-left all true _ (answered t [] v l printed e) = omega arith
  pair-left all true _ (answered t (u ∷ ts) v l printed e) = omega arith
  pair-left all false _ (operating [] v l printed e) = omega arith
  pair-left all false _ (operating (t ∷ ts) v l printed e) = omega arith
  pair-left all false _ (ringing t ts v l printed e) = omega arith
  pair-left all false _ (rung t ts v l printed e) = omega arith
  pair-left all false _ (printing t ts v l printed e) = omega arith
  pair-left all false _ (answering t ts v l printed e) = omega arith
  pair-left all false _ (answered t [] v l printed e) = omega arith
  pair-left all false _ (answered t (u ∷ ts) v l printed e) = omega arith

  paired-left :
      (all : List ℕ) (bs : List Bool) (s : System)
      → Turns A all s
      → left (moves A (paired bs) s) ≤ left s - length bs
  unfolding moves
  paired-left all [] s h = omega arith
  paired-left all (b ∷ bs) s h =
      let s' = move A (not b) (move A b s) in
      omega (
        arith,
        pair-left all b s h,
        paired-left all bs s' (move-Turns A all (not b) _ (move-Turns A all b s h)),
      )

  finished :
      (all : List ℕ) (s : System)
      → Turns A all s
      → left s ≤ 0
      → (client_move A s ≡ none) × (server_move A s ≡ none) × (s.printed ≡ all)
  unfolding client_move server_move
  finished all _ (operating [] v l printed e) h = (refl, refl, sym (append-nil printed) ∙ e)
  finished all _ (operating (t ∷ ts) v l printed e) h = absurd (omega arith)
  finished all _ (ringing t ts v l printed e) h = absurd (omega arith)
  finished all _ (rung t ts v l printed e) h = absurd (omega arith)
  finished all _ (printing t ts v l printed e) h = absurd (omega arith)
  finished all _ (answering t ts v l printed e) h = absurd (omega arith)
  finished all _ (answered t ts v l printed e) h = absurd (omega arith)

  -- After 36 rounds or more, in each of which client and server get one chance to move each, the
  -- one first or the other, both have come to the end, and the server has printed all six values.
  pub bells-finish :
      (bs : List Bool) (value : ℕ)
      → 36 ≤ length bs
      → let s = moves A (paired bs) (rendezvous value) in
        (client_move A s ≡ none) × (server_move A s ≡ none) × (s.printed ≡ six_values A value)
  bells-finish bs value enough =
      let begin : Turns A (six_values A value) (rendezvous value) =
        operating client_turns value (record { local_value = 1; reply_value = 0 }) []
          (client_turns-values A value) in
      finished (six_values A value) (moves A (paired bs) (rendezvous value))
        (moves-Turns A (six_values A value) (paired bs) (rendezvous value) begin)
        (omega (arith, paired-left (six_values A value) bs (rendezvous value) begin))
