-- ===== src/Perftest/Session/Overshot.antt =====
-- examples/perftest.cc on the stream: `server` waits for more bytes than `client` sends once a receive
-- of the warmup has taken bytes of the test.
use ucxpp.Base.{
  ℕ, ◌+◌, ◌-◌, ◌*◌, ◌^◌, ◌≤◌, ◌<◌, ◌≡◌, ◌≢◌, refl, ◌⊎◌, List, [], ◌∷◌, Bool, true, false, ltb,
  ltb→le, if◌then◌else◌, get_elem?, Bool-cases, inl, inr, arith,
}
use native.Mathlib.Nat.{mul-le-mul_left, mul-le-mul_right}
use ucxpp.Perftest.{Counters}
use ucxpp.Perftest.Session.{
  Stage, warming, measuring, finished, Session, is_waiting, begins, session_new,
}
use ucxpp.Perftest.Session.Turn.{AllBefore}
use ucxpp.Perftest.Session.Sender.{IsClient, IsClient-sent, tasks_new-IsClient, peer_step-IsClient}
use ucxpp.Perftest.Session.Stream.{
  StreamMove, sends, receives, stream_peer_step, stream_move, stream_run_moves,
}
use ucxpp.Perftest.Session.StreamServer.{given, given-given, IsServer, stepped, tasks_new-IsServer}

-- A sender goes on only if all senders before it have returned, as it is where each send ends at once.
abbrev pub IsPrompt : StreamMove → Session → Type 0
IsPrompt (sends i) s = AllBefore i s.client.counters.tasks
IsPrompt (receives i bytes) s = Unit

module _ (M concurrency W N : ℕ) where
  abbrev pub IsPromptRun : List StreamMove → Session → Type 0
  IsPromptRun [] s = Unit
  IsPromptRun (m ∷ ms) s = IsPrompt m s × IsPromptRun ms (stream_move M concurrency W N m s)

  module _ (some_task : 0 < concurrency) (some_bytes : 0 < M)
      (W_fits : M * W + concurrency * M < 2 ^ 64) (N_fits : M * N + concurrency * M < 2 ^ 64) where
    record Balanced (extra : ℕ) (s : Session) : Type 0 where
      sent : ℕ
      received : ℕ
      at_client : IsClient concurrency W N sent s.client.stage s.client.counters
      at_server : IsServer M concurrency W N extra received s.server.stage s.server.counters
      conserved : s.under_way + received ≡ M * sent

    sends-Balanced :
        (extra i : ℕ) (s : Session)
        → AllBefore i s.client.counters.tasks
        → Balanced extra s
        → Balanced extra (stream_move M concurrency W N (sends i) s)
    unfolding stream_move
    sends-Balanced extra i s prompt v = record {
      sent = if begins concurrency W N i s.client then v.sent + 1 else v.sent;
      received = v.received;
      at_client =
          peer_step-IsClient concurrency W N (omega (arith, mul-le-mul_right W some_bytes, W_fits))
            (omega (arith, mul-le-mul_right N some_bytes, N_fits)) v.sent i s.client prompt
            v.at_client;
      at_server = v.at_server;
      conserved = added (begins concurrency W N i s.client);
    }
      where
        added :
            (b : Bool)
            → (if b then s.under_way + M else s.under_way) + v.received
              ≡ M * (if b then v.sent + 1 else v.sent)
        added true = omega (arith, v.conserved)
        added false = v.conserved

    -- A receive that is not refused.
    receives-Balanced :
        (extra extra' i bytes : ℕ) (s : Session)
        → given i bytes s.server.counters ≤ s.under_way
        → given i bytes s.server.counters ≤ M
        → (extra' ≡ extra)
          ⊎ ((s.server.stage ≡ warming)
              × (M * W + extra' ≤ s.server.counters.iterations + given i bytes s.server.counters))
        → Balanced extra s
        → Balanced extra' (record s {
          server = stream_peer_step M concurrency W N i (given i bytes s.server.counters) s.server;
          under_way = s.under_way - given i bytes s.server.counters;
        })
    receives-Balanced extra extra' i bytes s some_way fits x v = record {
      sent = v.sent;
      received = v.received + given i bytes s.server.counters;
      at_client = v.at_client;
      at_server =
          stepped M concurrency W N some_task some_bytes W_fits N_fits extra extra' v.received i
            (given i bytes s.server.counters) s.server.stage s.server.counters fits
            (given-given i bytes s.server.counters) x v.at_server;
      conserved = omega (arith, v.conserved, some_way);
    }

    stream_move-Balanced :
        (extra : ℕ) (m : StreamMove) (s : Session)
        → IsPrompt m s
        → Balanced extra s
        → Balanced extra (stream_move M concurrency W N m s)
    unfolding stream_move
    stream_move-Balanced extra (sends i) s prompt v = sends-Balanced extra i s prompt v
    stream_move-Balanced extra (receives i bytes) s prompt v =
        let taken = given i bytes s.server.counters in
        elim (Bool-cases (ltb s.under_way taken)) [
          | inl blocked ↦ rw blocked v
          | inr free ↦ elim (Bool-cases (ltb M taken)) [
            | inl large ↦ rw (free, large) v
            | inr fits ↦
                rw (free, fits)
                  (receives-Balanced extra extra i bytes s (ltb→le _ _ free) (ltb→le _ _ fits)
                    (inl refl) v)
          ]
        ]

    stream_run_moves-Balanced :
        (extra : ℕ) (ms : List StreamMove) (s : Session)
        → IsPromptRun ms s
        → Balanced extra s
        → Balanced extra (stream_run_moves M concurrency W N ms s)
    unfolding stream_run_moves
    stream_run_moves-Balanced extra [] s prompt v = v
    stream_run_moves-Balanced extra (m ∷ ms) s prompt v =
        stream_run_moves-Balanced extra ms _ prompt.1 (stream_move-Balanced extra m s prompt.0 v)

    overshot :
        (i bytes : ℕ) (s : Session)
        → s.server.stage ≡ warming
        → is_waiting (get_elem? s.server.counters.tasks i) ≡ true
        → bytes ≤ s.under_way
        → bytes ≤ M
        → M * W < s.server.counters.iterations + bytes
        → Balanced 0 s
        → Balanced 1 (stream_move M concurrency W N (receives i bytes) s)
    unfolding stream_move
    overshot i bytes s warm waits some_way fits more v =
        let all : given i bytes s.server.counters ≡ bytes = rw waits refl in
        let free : ltb s.under_way (given i bytes s.server.counters) ≡ false =
          ground (arith, all) in
        let fit : ltb M (given i bytes s.server.counters) ≡ false = ground (arith, all) in
        rw (free, fit)
          (receives-Balanced 0 1 i bytes s (omega (arith, all)) (omega (arith, all))
            (inr (warm, omega (arith, all, more))) v)

    starved :
        (sent received under_way : ℕ) (stage : Stage) (c : Counters)
        → IsServer M concurrency W N 1 received stage c
        → under_way + received ≡ M * sent
        → sent ≤ W + N
        → stage ≢ finished
    starved sent received under_way warming c v e most f = cc
    starved sent received under_way measuring c v e most f = cc
    starved sent received under_way finished c v e most f =
        omega (arith, v, e, mul-le-mul_left M most)

    -- Once a receive of the warmup has given more bytes than were left of its messages, `server` never
    -- comes to its end, whatever happens before and after that receive, for any number of tasks, if
    -- each send ends at once, messages are not empty, and the bytes of each part fit in 64 bits together
    -- with one message for each task.
    pub server-overshot :
        (before after : List StreamMove) (i bytes : ℕ)
        → let s = stream_run_moves M concurrency W N before (session_new concurrency W N) in
          let s' = stream_move M concurrency W N (receives i bytes) s in
          IsPromptRun before (session_new concurrency W N)
          → IsPromptRun after s'
          → s.server.stage ≡ warming
          → is_waiting (get_elem? s.server.counters.tasks i) ≡ true
          → bytes ≤ s.under_way
          → bytes ≤ M
          → M * W < s.server.counters.iterations + bytes
          → (stream_run_moves M concurrency W N after s').server.stage ≢ finished
    unfolding session_new
    server-overshot before after i bytes prompt prompt' warm waits some_way fits more =
        let v = stream_run_moves-Balanced 0 before _ prompt start in
        let v' = overshot i bytes _ warm waits some_way fits more v in
        let end = stream_run_moves-Balanced 1 after _ prompt' v' in
        starved end.sent end.received _ _ _ end.at_server end.conserved
          (IsClient-sent concurrency W N end.sent _ _ end.at_client)
      where
        start : Balanced 0 (session_new concurrency W N)
        start = record {
          sent = 0;
          received = 0;
          at_client = tasks_new-IsClient concurrency W N;
          at_server = tasks_new-IsServer M concurrency W N some_task some_bytes W_fits N_fits;
          conserved = omega arith;
        }
