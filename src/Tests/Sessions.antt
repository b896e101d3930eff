-- ===== src/Tests/Sessions.antt =====
-- examples/perftest.cc: `client` and `server` on concrete schedules.
use ucxpp.Base.{ℕ, zero, suc, ◌≡◌, ◌≢◌, refl, List, [], ◌∷◌, ◌++◌, Bool, true, false, arith}
use ucxpp.Perftest.Session.{
  measuring, finished, Move, sends, receives, session_move, session_run, session_new,
}
use ucxpp.Perftest.Session.Single.{rounds, session-finishes}
use ucxpp.Perftest.Session.Starved.{IsEagerRun, server-starves}
use ucxpp.Perftest.Session.Stream.{StreamMove, stream_move, stream_run_moves}
use ucxpp.Perftest.Session.Stream
use ucxpp.Perftest.Session.Overshot.{server-overshot}
use ucxpp.Perftest.Session.Whole.{scaled, wholes, stream_run_moves-session_run}

abbrev repeated : ℕ → List Bool → List Bool
repeated zero l = []
repeated (suc n) l = l ++ repeated n l

abbrev turns : List Bool
turns = repeated 7 (true ∷ false ∷ [])

session-finishes_example :
    let s = session_run 1 2 3 (rounds turns) (session_new 1 2 3) in
    (s.client.stage ≡ finished) × (s.server.stage ≡ finished) × (s.under_way ≡ 0)
session-finishes_example = session-finishes 2 3 (omega arith) (omega arith) turns (omega arith)

-- Both receivers are called, then the client runs to its end, then the messages come.
abbrev hasty : List Move
hasty =
    receives 0
    ∷ receives 1
    ∷ sends 0
    ∷ sends 0
    ∷ sends 0
    ∷ sends 1
    ∷ sends 0
    ∷ sends 0
    ∷ sends 0
    ∷ sends 1
    ∷ receives 0
    ∷ receives 1
    ∷ receives 0
    ∷ receives 0
    ∷ receives 1
    ∷ receives 0
    ∷ []

hasty_stuck :
    let s = session_run 2 2 2 hasty (session_new 2 2 2) in
    (s.client.stage ≡ finished)
    × (s.server.stage ≡ measuring)
    × (s.under_way ≡ 0)
    × (session_move 2 2 2 (receives 0) s ≡ s)
    × (session_move 2 2 2 (receives 1) s ≡ s)
unfolding session_run session_new
hasty_stuck = (refl, refl, refl, refl, refl)

hasty-IsEager : IsEagerRun 2 2 2 hasty (session_new 2 2 2)
unfolding session_new session_move
hasty-IsEager = (
  λ h. cc,
  (
    λ h. cc,
    (
      tt,
      (
        tt,
        (
          tt,
          (tt, (tt, (tt, (tt, (tt, (λ h. refl, (λ h. refl, (λ h. refl, (tt, (tt, (tt, tt))))))))))),
        ),
      ),
    ),
  ),
)

server-starves_example : (session_run 2 2 2 hasty (session_new 2 2 2)).server.stage ≢ finished
server-starves_example =
    server-starves 2 2 2 (omega arith) (omega arith) (omega arith) (omega arith) hasty hasty-IsEager

-- Two messages of 8 bytes, one for each part. The first receive gives 5 bytes, the second one 8.
abbrev before_overshot : List StreamMove
before_overshot =
    Stream.sends 0
    ∷ Stream.sends 0
    ∷ Stream.sends 0
    ∷ Stream.sends 0
    ∷ Stream.receives 0 0
    ∷ Stream.receives 0 5
    ∷ []

abbrev after_overshot : List StreamMove
after_overshot = Stream.receives 0 0 ∷ Stream.receives 0 3 ∷ []

overshot_left :
    let s = stream_run_moves 8 1 1 1 after_overshot (
      stream_move 8 1 1 1
        (Stream.receives 0 8)
        (stream_run_moves 8 1 1 1 before_overshot (session_new 1 1 1))) in
    (s.client.stage ≡ finished)
    × (s.server.stage ≡ measuring)
    × (s.server.counters.iterations ≡ 3)
    × (s.under_way ≡ 0)
unfolding stream_run_moves session_new
overshot_left = (refl, refl, refl, refl)

server-overshot_example :
    (stream_run_moves 8 1 1 1 after_overshot (
      stream_move 8 1 1 1
        (Stream.receives 0 8)
        (stream_run_moves 8 1 1 1 before_overshot (session_new 1 1 1)))).server.stage
    ≢ finished
unfolding stream_run_moves session_new stream_move
server-overshot_example =
    server-overshot 8 1 1 1 (omega arith) (omega arith) (omega arith) (omega arith) before_overshot
      after_overshot 0 8 (tt, (tt, (tt, (tt, (tt, (tt, tt)))))) (tt, (tt, tt)) refl refl
      (omega arith) (omega arith) (omega arith)

stream_run_moves-session_run_example :
    stream_run_moves 8 2 2 2 (wholes 8 hasty) (session_new 2 2 2)
    ≡ scaled 8 (session_run 2 2 2 hasty (session_new 2 2 2))
stream_run_moves-session_run_example =
    stream_run_moves-session_run 8 (omega arith) 2 2 2 (omega arith) (omega arith) hasty
