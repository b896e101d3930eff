-- ===== src/Perftest/Session.antt =====
-- examples/perftest.cc: `client` and `server` at one connection, for tests that send tagged messages.
-- Both run a warmup and then the test; in each part they make as many tasks as `concurrency` says,
-- wait for all of them, and reset the counter. The environment chooses whose operation ends next. Stream
-- has the tests on the stream.
pub mod Side
pub mod Single
pub mod Turn
pub mod Sender
pub mod Receiver
pub mod Starved
pub mod Stream
pub mod StreamServer
pub mod Overshot
pub mod Bytes
pub mod Whole
use ucxpp.Base.{
  ℕ, zero, suc, ◌+◌, ◌-◌, List, [], ◌∷◌, Bool, true, false, ◌&&◌, Option, none, some, ltb,
  if◌then◌else◌, get_elem?,
}
use ucxpp.Perftest.{Phase, waiting, returned, Counters, tasks_new, message_step}
use ucxpp.Perftest.Counter.{all_returned}
use ucxpp.Perftest.Ending.{is_live}

-- Which tasks `client` or `server` is waiting for; behind them both end with `flush` and `close`.
pub data Stage : Type 0 where
  warming measuring finished : Stage

pub record Peer : Type 0 where
  pub stage : Stage
  pub counters : Counters

-- The messages under way were begun by a sender and not received yet; on the stream, their bytes.
pub record Session : Type 0 where
  pub client : Peer
  pub server : Peer
  pub under_way : ℕ

-- The environment lets a sender or a receiver go on, by its number.
pub data Move : Type 0 where
  sends receives : (i : ℕ) → Move

abbrev pub is_waiting : Option Phase → Bool
is_waiting (some waiting) = true
is_waiting _ = false

module _ (concurrency warmup_iterations iterations : ℕ) where
  -- `warmup ? perf.warmup_iterations : perf.iterations`
  unfoldable pub total_iterations : Stage → ℕ
  total_iterations warming = warmup_iterations
  total_iterations _ = iterations

  -- The loop over `co_await task` ends when all tasks have returned; the test begins behind that of the
  -- warmup, with the counter reset.
  unfoldable pub advance : Peer → Peer
  unfolding tasks_new
  advance p =
      if all_returned p.counters.tasks
      then elim p.stage [
        | warming ↦ record { stage = measuring; counters = tasks_new concurrency }
        | _ ↦ record p { stage = finished }
      ]
      else p

  unfoldable pub peer_step : (i : ℕ) → Peer → Peer
  unfolding advance total_iterations message_step
  peer_step i p =
      advance (record p { counters = message_step (total_iterations p.stage) i p.counters })

  -- Whether the step of a sender begins a message.
  unfoldable pub begins : (i : ℕ) → Peer → Bool
  unfolding total_iterations message_step
  begins i p =
      is_live (get_elem? p.counters.tasks i)
      && is_waiting (get_elem? (message_step (total_iterations p.stage) i p.counters).tasks i)

  -- A sender never waits for the other side; the receive of a message ends only if there is one.
  unfoldable pub session_move : Move → Session → Session
  unfolding peer_step begins
  session_move (sends i) s = record s {
    client = peer_step i s.client;
    under_way = if begins i s.client then s.under_way + 1 else s.under_way;
  }
  session_move (receives i) s =
      let taken : ℕ = if is_waiting (get_elem? s.server.counters.tasks i) then 1 else 0 in
      if ltb s.under_way taken
      then s
      else record s { server = peer_step i s.server; under_way = s.under_way - taken }

  unfoldable pub session_run : List Move → Session → Session
  unfolding session_move
  session_run [] s = s
  session_run (m ∷ ms) s = session_run ms (session_move m s)

  -- Both are connected and about to begin the warmup.
  unfoldable pub session_new : Session
  unfolding tasks_new
  session_new =
      let peer : Peer = record { stage = warming; counters = tasks_new concurrency } in
      record { client = peer; server = peer; under_way = 0 }
