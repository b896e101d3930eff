-- ===== src/Perftest/Session/Side.antt =====
-- examples/perftest.cc with one task: the states of one side, `client` or `server`, and its steps.
use ucxpp.Base.{
  ℕ, ◌+◌, ◌-◌, ◌^◌, ◌%◌, ◌≤◌, ◌<◌, ◌≡◌, refl, [], ◌∷◌, inl, inr, ltb, ltb→lt, ltb→le, if◌then◌else◌,
  get_elem?, Bool-cases, arith,
}
use ucxpp.Perftest.{Phase, unstarted, waiting, returned}
use ucxpp.Perftest.Session.{
  Stage, warming, measuring, finished, Peer, is_waiting, peer_step, begins,
}

module _ (W N : ℕ) where
  abbrev pub single : Stage → (iterations : ℕ) → Phase → Peer
  single stage k p = record { stage = stage; counters = record { iterations = k; tasks = p ∷ [] } }

  -- The states of one side: `left` is the number of its steps to come, `ended` how many of its messages
  -- have ended, and `waits` is 1 if one has begun that has not ended.
  pub data Single : Peer → (left ended waits : ℕ) → Type 0 where
    warm_called :
        (l e q : ℕ) → l ≡ W + N + 2 → e ≡ 0 → q ≡ 0 → Single (single warming 0 unstarted) l e q
    warm_waits :
        (k l e q : ℕ)
        → k < W
        → l ≡ W - k + N + 1
        → e ≡ k
        → q ≡ 1
        → Single (single warming k waiting) l e q
    test_called :
        (l e q : ℕ) → l ≡ N + 1 → e ≡ W → q ≡ 0 → Single (single measuring 0 unstarted) l e q
    test_waits :
        (k l e q : ℕ)
        → k < N
        → l ≡ N - k
        → e ≡ W + k
        → q ≡ 1
        → Single (single measuring k waiting) l e q
    over : (k l e q : ℕ) → l ≡ 0 → e ≡ W + N → q ≡ 0 → Single (single finished k returned) l e q

  pub Single-bound :
      {p : Peer} (l e q : ℕ)
      → Single p l e q
      → (e + q ≤ W + N) × (l ≡ 0 → (e ≡ W + N) × (q ≡ 0) × (p.stage ≡ finished))
  Single-bound l e q (warm_called _ _ _ a b c) = (omega arith, λ z. absurd (omega arith))
  Single-bound l e q (warm_waits k _ _ _ h a b c) = (omega arith, λ z. absurd (omega arith))
  Single-bound l e q (test_called _ _ _ a b c) = (omega arith, λ z. absurd (omega arith))
  Single-bound l e q (test_waits k _ _ _ h a b c) = (omega arith, λ z. absurd (omega arith))
  Single-bound l e q (over k _ _ _ a b c) = (omega arith, λ z. (b, c, refl))

  pub Single-waiting :
      {p : Peer} (l e q : ℕ)
      → Single p l e q
      → (if is_waiting (get_elem? p.counters.tasks 0) then 1 else 0) ≡ q
  Single-waiting l e q (warm_called _ _ _ a b c) = omega arith
  Single-waiting l e q (warm_waits k _ _ _ h a b c) = omega arith
  Single-waiting l e q (test_called _ _ _ a b c) = omega arith
  Single-waiting l e q (test_waits k _ _ _ h a b c) = omega arith
  Single-waiting l e q (over k _ _ _ a b c) = omega arith

  -- A step ends the message that was waited for, and begins another one or none.
  abbrev pub Stepped : Peer → (l e q : ℕ) → Type 0
  Stepped p l e q =
      (q' : ℕ) × Single (peer_step 1 W N 0 p) (l - 1) (e + q) q'
      × ((if begins 1 W N 0 p then 1 else 0) ≡ q')

  module _ (W_fits : W < 2 ^ 64) (N_fits : N < 2 ^ 64) where
    pub Single-step : {p : Peer} (l e q : ℕ) → Single p l e q → Stepped p l e q
    unfolding peer_step begins
    Single-step l e q (warm_called _ _ _ a b c) = elim (Bool-cases (ltb 0 W)) [
      | inl more ↦
          rw more (1, warm_waits 0 _ _ _ (ltb→lt 0 W more) (omega arith) (omega arith) refl, refl)
      | inr stop ↦ rw stop (
        0,
        test_called _ _ _ (omega (arith, ltb→le 0 W stop)) (omega (arith, ltb→le 0 W stop)) refl,
        refl,
      )
    ]
    Single-step l e q (warm_waits k _ _ _ h a b c) =
        let no_wrap : (k + 1) % 2 ^ 64 ≡ k + 1 = omega arith in
        rw no_wrap (elim (Bool-cases (ltb (k + 1) W)) [
          | inl more ↦ rw more (
            1,
            warm_waits (k + 1) _ _ _ (ltb→lt (k + 1) W more) (omega arith) (omega arith) refl,
            refl,
          )
          | inr stop ↦ rw stop (
            0,
            test_called _ _ _ (omega (arith, ltb→le (k + 1) W stop))
                (omega (arith, ltb→le (k + 1) W stop)) refl,
            refl,
          )
        ])
    Single-step l e q (test_called _ _ _ a b c) = elim (Bool-cases (ltb 0 N)) [
      | inl more ↦
          rw more (1, test_waits 0 _ _ _ (ltb→lt 0 N more) (omega arith) (omega arith) refl, refl)
      | inr stop ↦ rw stop (
        0,
        over 0 _ _ _ (omega (arith, ltb→le 0 N stop)) (omega (arith, ltb→le 0 N stop)) refl,
        refl,
      )
    ]
    Single-step l e q (test_waits k _ _ _ h a b c) =
        let no_wrap : (k + 1) % 2 ^ 64 ≡ k + 1 = omega arith in
        rw no_wrap (elim (Bool-cases (ltb (k + 1) N)) [
          | inl more ↦ rw more (
            1,
            test_waits (k + 1) _ _ _ (ltb→lt (k + 1) N more) (omega arith) (omega arith) refl,
            refl,
          )
          | inr stop ↦ rw stop (
            0,
            over (k + 1) _ _ _ (omega (arith, ltb→le (k + 1) N stop))
                (omega (arith, ltb→le (k + 1) N stop)) refl,
            refl,
          )
        ])
    Single-step l e q (over k _ _ _ a b c) =
        (0, over k _ _ _ (omega arith) (omega arith) refl, refl)
