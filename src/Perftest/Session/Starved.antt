-- ===== src/Perftest/Session/Starved.antt =====
-- examples/perftest.cc with several tasks: `server` waits for more messages than `client` sends.
use ucxpp.Base.{
  ℕ, ◌+◌, ◌^◌, ◌≤◌, ◌<◌, ◌≡◌, ◌≢◌, refl, List, [], ◌∷◌, Bool, true, false, ltb, ltb→le,
  if◌then◌else◌, Bool-cases, inl, inr, arith,
}
use ucxpp.Perftest.{Counters}
use ucxpp.Perftest.Session.{
  Stage, warming, measuring, finished, Session, Move, sends, receives, begins, session_move,
  session_run, session_new,
}
use ucxpp.Perftest.Session.Turn.{AllBefore}
use ucxpp.Perftest.Session.Sender.{IsClient, IsClient-sent, tasks_new-IsClient, peer_step-IsClient}
use ucxpp.Perftest.Session.Receiver.{
  taken_at, CalledFirst, IsServer, tasks_new-IsServer, peer_step-IsServer,
}

-- A sender goes on only if all senders before it have returned, as it is where each send ends at once;
-- no receive of the warmup ends before all receivers of the warmup were called.
abbrev pub IsEager : Move → Session → Type 0
IsEager (sends i) s = AllBefore i s.client.counters.tasks
IsEager (receives i) s = CalledFirst i s.server.stage s.server.counters

module _ (concurrency W N : ℕ) where
  abbrev pub IsEagerRun : List Move → Session → Type 0
  IsEagerRun [] s = Unit
  IsEagerRun (m ∷ ms) s = IsEager m s × IsEagerRun ms (session_move concurrency W N m s)

  module _ (several : 2 ≤ concurrency) (some_warmup : 0 < W) (W_fits : W + concurrency < 2 ^ 64)
      (N_fits : N + concurrency < 2 ^ 64) where
    some_task : 0 < concurrency
    some_task = omega arith

    record Balanced (s : Session) : Type 0 where
      sent : ℕ
      received : ℕ
      at_client : IsClient concurrency W N sent s.client.stage s.client.counters
      at_server : IsServer concurrency some_task W N received s.server.stage s.server.counters
      conserved : s.under_way + received ≡ sent

    session_move-Balanced :
        (m : Move) (s : Session)
        → IsEager m s
        → Balanced s
        → Balanced (session_move concurrency W N m s)
    unfolding session_move
    session_move-Balanced (sends i) s eager v = record {
      sent = if begins concurrency W N i s.client then v.sent + 1 else v.sent;
      received = v.received;
      at_client =
          peer_step-IsClient concurrency W N (omega arith) (omega arith) v.sent i s.client eager
            v.at_client;
      at_server = v.at_server;
      conserved = added (begins concurrency W N i s.client);
    }
      where
        added :
            (b : Bool)
            → (if b then s.under_way + 1 else s.under_way) + v.received
              ≡ (if b then v.sent + 1 else v.sent)
        added true = omega (arith, v.conserved)
        added false = v.conserved
    session_move-Balanced (receives i) s eager v =
        elim (Bool-cases (ltb s.under_way (taken_at i s.server.counters))) [
          | inl blocked ↦ rw blocked v
          | inr free ↦ rw free (record {
            sent = v.sent;
            received = v.received + taken_at i s.server.counters;
            at_client = v.at_client;
            at_server =
                peer_step-IsServer concurrency some_task W N some_warmup W_fits N_fits v.received i
                  s.server eager v.at_server;
            conserved = omega (arith, ltb→le _ _ free, v.conserved);
          })
        ]

    session_run-Balanced :
        (ms : List Move) (s : Session)
        → IsEagerRun ms s
        → Balanced s
        → Balanced (session_run concurrency W N ms s)
    unfolding session_run
    session_run-Balanced [] s eager v = v
    session_run-Balanced (m ∷ ms) s eager v =
        session_run-Balanced ms _ eager.1 (session_move-Balanced m s eager.0 v)

    starved :
        (sent received under_way : ℕ) (stage : Stage) (c : Counters)
        → IsServer concurrency some_task W N received stage c
        → under_way + received ≡ sent
        → sent ≤ W + N
        → stage ≢ finished
    starved sent received under_way warming c v e h f = cc
    starved sent received under_way measuring c v e h f = cc
    starved sent received under_way finished c v e h f = omega arith

    -- With several tasks on each side and a warmup of one message or more, `server` never comes to its
    -- end, whatever the order of the steps, if each send ends at once and no receive of the warmup
    -- ends before all receivers of the warmup were called; the numbers of messages fit in 64 bits
    -- together with that of the tasks.
    pub server-starves :
        (ms : List Move)
        → IsEagerRun ms (session_new concurrency W N)
        → (session_run concurrency W N ms (session_new concurrency W N)).server.stage ≢ finished
    unfolding session_new
    server-starves ms eager =
        let v = session_run-Balanced ms (session_new concurrency W N) eager start in
        starved v.sent v.received _ _ _ v.at_server v.conserved
          (IsClient-sent concurrency W N v.sent _ _ v.at_client)
      where
        start : Balanced (session_new concurrency W N)
        start = record {
          sent = 0;
          received = 0;
          at_client = tasks_new-IsClient concurrency W N;
          at_server = tasks_new-IsServer concurrency some_task W N;
          conserved = refl;
        }
