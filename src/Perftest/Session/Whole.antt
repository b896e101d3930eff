-- ===== src/Perftest/Session/Whole.antt =====
-- examples/perftest.cc on the stream, where each receive gives a whole message: the session is that of
-- tagged messages, counted in bytes.
use ucxpp.Base.{
  ℕ, ◌+◌, ◌-◌, ◌*◌, ◌^◌, ◌≤◌, ◌<◌, ◌≡◌, refl, ap, ◌∙◌, List, [], ◌∷◌, Bool, true, false, some, ltb,
  if◌then◌else◌, get_elem?, Bool-cases, inl, inr, length, arith,
}
use native.Mathlib.Nat.{mul-le-mul_left, mul-le-mul_right, mul-sub}
use ucxpp.Perftest.{waiting, Counters, tasks_new, task_step, message_step, stream_step}
use ucxpp.Perftest.Counter.{Inv, task_step-Inv, tasks_new-Inv, all_returned}
use ucxpp.Perftest.Session.{
  Stage, warming, measuring, finished, Peer, Session, Move, sends, receives, is_waiting,
  total_iterations, advance, peer_step, begins, session_move, session_run, session_new,
}
use ucxpp.Perftest.Session.Stream.{StreamMove, stream_peer_step, stream_move, stream_run_moves}
use ucxpp.Perftest.Session.Stream
use ucxpp.Perftest.Session.Bytes.{in_bytes, ltb-scaled, task_step-in_bytes}
use ucxpp.Perftest.Session.Single.{rounds, session-finishes}

-- The session of tagged messages in bytes.
abbrev pub scaled : (M : ℕ) → Session → Session
scaled M s = record s {
  server = record s.server { counters = in_bytes M s.server.counters };
  under_way = M * s.under_way;
}

abbrev pub whole : (M : ℕ) → Move → StreamMove
whole M (sends i) = Stream.sends i
whole M (receives i) = Stream.receives i M

abbrev pub wholes : (M : ℕ) → List Move → List StreamMove
wholes M [] = []
wholes M (m ∷ ms) = whole M m ∷ wholes M ms

module _ (M : ℕ) (some_bytes : 0 < M) where
  module _ (concurrency W N : ℕ) where
    -- The counter of `server` in its stage.
    abbrev Counted : Peer → Type 0
    Counted p = Inv (total_iterations concurrency W N p.stage) 1 (concurrency * 1) p.counters

    abbrev peer_in_bytes : Peer → Peer
    peer_in_bytes p = record p { counters = in_bytes M p.counters }

    advance-in_bytes :
        (stage : Stage) (c : Counters)
        → advance concurrency W N (record { stage = stage; counters = in_bytes M c })
          ≡ peer_in_bytes (advance concurrency W N (record { stage = stage; counters = c }))
    unfolding advance tasks_new
    advance-in_bytes warming c =
        let nothing : M * 0 ≡ 0 = omega arith in
        elim (Bool-cases (all_returned c.tasks)) [
          | inl e ↦ rw (e, nothing) refl
          | inr e ↦ rw e refl
        ]
    advance-in_bytes measuring c = elim (Bool-cases (all_returned c.tasks)) [
      | inl e ↦ rw e refl
      | inr e ↦ rw e refl
    ]
    advance-in_bytes finished c = elim (Bool-cases (all_returned c.tasks)) [
      | inl e ↦ rw e refl
      | inr e ↦ rw e refl
    ]

    advance-Counted :
        (stage : Stage) (c : Counters)
        → Inv (total_iterations concurrency W N stage) 1 (concurrency * 1) c
        → Counted (advance concurrency W N (record { stage = stage; counters = c }))
    unfolding advance total_iterations
    advance-Counted warming c v = elim (Bool-cases (all_returned c.tasks)) [
      | inl e ↦ rw e (tasks_new-Inv N 1 concurrency)
      | inr e ↦ rw e v
    ]
    advance-Counted measuring c v = elim (Bool-cases (all_returned c.tasks)) [
      | inl e ↦ rw e v
      | inr e ↦ rw e v
    ]
    advance-Counted finished c v = elim (Bool-cases (all_returned c.tasks)) [
      | inl e ↦ rw e v
      | inr e ↦ rw e v
    ]

    module _ (W_fits : M * (W + concurrency) < 2 ^ 64)
        (N_fits : M * (N + concurrency) < 2 ^ 64) where
      fits :
          (stage : Stage) → M * (total_iterations concurrency W N stage + concurrency * 1) < 2 ^ 64
      unfolding total_iterations
      fits warming = omega (arith, W_fits)
      fits measuring = omega (arith, N_fits)
      fits finished = omega (arith, N_fits)

      peer_step-Counted : (i : ℕ) (p : Peer) → Counted p → Counted (peer_step concurrency W N i p)
      unfolding peer_step message_step
      peer_step-Counted i p v =
          advance-Counted p.stage
            (message_step (total_iterations concurrency W N p.stage) i p.counters)
            (task_step-Inv (total_iterations concurrency W N p.stage) 1 (concurrency * 1) i 1
              p.counters (omega arith)
              (omega (
                arith,
                fits p.stage,
                mul-le-mul_right (total_iterations concurrency W N p.stage + concurrency * 1)
                    some_bytes,
              ))
              v)

      stream_peer_step-scaled :
          (i n : ℕ) (p : Peer)
          → (get_elem? p.counters.tasks i ≡ some waiting → n ≡ M)
          → Counted p
          → stream_peer_step M concurrency W N i n (peer_in_bytes p)
            ≡ peer_in_bytes (peer_step concurrency W N i p)
      unfolding stream_peer_step peer_step stream_step message_step
      stream_peer_step-scaled i n p all v =
          let total = total_iterations concurrency W N p.stage in
          ap (λ c. advance concurrency W N (record { stage = p.stage; counters = c }))
            (task_step-in_bytes M some_bytes total (concurrency * 1) i n p.counters (fits p.stage)
              all v)
          ∙ advance-in_bytes p.stage (task_step total i 1 p.counters)

      -- A receive of `n` bytes that are `q` messages, one or none.
      received :
          (i n q : ℕ) (s : Session)
          → n ≡ M * q
          → q ≤ 1
          → (get_elem? s.server.counters.tasks i ≡ some waiting → n ≡ M)
          → Counted s.server
          → (if ltb (M * s.under_way) n
              then scaled M s
              else if ltb M n
              then scaled M s
              else record s {
                server = stream_peer_step M concurrency W N i n (peer_in_bytes s.server);
                under_way = M * s.under_way - n;
              })
            ≡ scaled M (
                if ltb s.under_way q then s else record s {
                  server = peer_step concurrency W N i s.server;
                  under_way = s.under_way - q;
                })
      received i n q s h one all v =
          let same : ltb (M * s.under_way) n ≡ ltb s.under_way q =
            ap (ltb (M * s.under_way)) h ∙ ltb-scaled M some_bytes s.under_way q in
          let fit : ltb M n ≡ false = ground (arith, h, mul-le-mul_left M one) in
          let left : M * s.under_way - n ≡ M * (s.under_way - q) =
            omega (arith, h, mul-sub M s.under_way q) in
          elim (Bool-cases (ltb s.under_way q)) [
            | inl e ↦ rw (same, e) refl
            | inr e ↦ rw (same, e, fit, stream_peer_step-scaled i n s.server all v, left) refl
          ]

      stream_move-scaled :
          (m : Move) (s : Session)
          → Counted s.server
          → stream_move M concurrency W N (whole M m) (scaled M s)
            ≡ scaled M (session_move concurrency W N m s)
      unfolding stream_move session_move
      stream_move-scaled (sends i) s v =
          let more : M * (s.under_way + 1) ≡ M * s.under_way + M = omega arith in
          elim (Bool-cases (begins concurrency W N i s.client)) [
            | inl e ↦ rw (e, more) refl
            | inr e ↦ rw e refl
          ]
      stream_move-scaled (receives i) s v =
          let waits = is_waiting (get_elem? s.server.counters.tasks i) in
          received i (if waits then M else 0) (if waits then 1 else 0) s (as_bytes waits)
            (at_most waits) (λ e. ap (λ p. if is_waiting p then M else 0) e) v
        where
          as_bytes : (b : Bool) → (if b then M else 0) ≡ M * (if b then 1 else 0)
          as_bytes true = omega arith
          as_bytes false = omega arith

          at_most : (b : Bool) → (if b then 1 else 0) ≤ 1
          at_most true = omega arith
          at_most false = omega arith

      session_move-Counted :
          (m : Move) (s : Session)
          → Counted s.server
          → Counted (session_move concurrency W N m s).server
      unfolding session_move
      session_move-Counted (sends i) s v = v
      session_move-Counted (receives i) s v =
          elim (Bool-cases
            (ltb s.under_way (if is_waiting (get_elem? s.server.counters.tasks i) then 1 else 0))) [
              | inl e ↦ rw e v
              | inr e ↦ rw e (peer_step-Counted i s.server v)
            ]

      session_run-scaled :
          (ms : List Move) (s : Session)
          → Counted s.server
          → stream_run_moves M concurrency W N (wholes M ms) (scaled M s)
            ≡ scaled M (session_run concurrency W N ms s)
      unfolding stream_run_moves session_run
      session_run-scaled [] s v = refl
      session_run-scaled (m ∷ ms) s v =
          ap (stream_run_moves M concurrency W N (wholes M ms)) (stream_move-scaled m s v)
          ∙ session_run-scaled ms _ (session_move-Counted m s v)

      -- Where each receive gives a whole M message, a session on the stream is that of tagged messages with
      -- the same steps, its bytes being those of the messages, for any number of tasks: messages are
      -- not empty, and the bytes of each part fit in 64 bits together with one message for each task.
      pub stream_run_moves-session_run :
          (ms : List Move)
          → stream_run_moves M concurrency W N (wholes M ms) (session_new concurrency W N)
            ≡ scaled M (session_run concurrency W N ms (session_new concurrency W N))
      unfolding session_new total_iterations
      stream_run_moves-session_run ms =
          let nothing : M * 0 ≡ 0 = omega arith in
          let fresh : session_new concurrency W N ≡ scaled M (session_new concurrency W N) =
            rw nothing refl in
          ap (stream_run_moves M concurrency W N (wholes M ms)) fresh
          ∙ session_run-scaled ms (session_new concurrency W N) (tasks_new-Inv W 1 concurrency)

  -- With one task on each side, and where each receive gives a whole M message, a session on the stream
  -- comes to its end on both sides as one of tagged messages does.
  pub stream_session-finishes :
      (W N : ℕ)
      → M * (W + 1) < 2 ^ 64
      → M * (N + 1) < 2 ^ 64
      → (bs : List Bool) → 2 * (W + N) + 4 ≤ length bs
      → let s = stream_run_moves M 1 W N (wholes M (rounds bs)) (session_new 1 W N) in
        (s.client.stage ≡ finished) × (s.server.stage ≡ finished) × (s.under_way ≡ 0)
  stream_session-finishes W N W_fits N_fits bs enough =
      let (at_client, at_server, none_left) =
        session-finishes W N (omega (arith, mul-le-mul_right (W + 1) some_bytes))
          (omega (arith, mul-le-mul_right (N + 1) some_bytes)) bs enough in
      rw (stream_run_moves-session_run 1 W N W_fits N_fits (rounds bs))
        (at_client, at_server, omega (arith, ap (λ (x : ℕ). M * x) none_left))
