-- ===== src/Perftest/Session/Stream.antt =====
-- examples/perftest.cc: `client` and `server` at one connection, for tests that send on the stream. The
-- receivers count bytes: a receive may give any part of a message, and bytes of two messages at once.
use ucxpp.Base.{ℕ, ◌+◌, ◌-◌, List, [], ◌∷◌, ltb, if◌then◌else◌, get_elem?}
use ucxpp.Perftest.{stream_step}
use ucxpp.Perftest.Session.{Peer, Session, is_waiting, total_iterations, advance, peer_step, begins}

-- The environment lets a sender go on, or a receiver, whose receive, if it waits for one, has given
-- `bytes`.
pub data StreamMove : Type 0 where
  sends : (i : ℕ) → StreamMove
  receives : (i bytes : ℕ) → StreamMove

module _ (message_size concurrency warmup_iterations iterations : ℕ) where
  unfoldable pub stream_peer_step : (i bytes : ℕ) → Peer → Peer
  unfolding advance total_iterations stream_step
  stream_peer_step i bytes p = advance concurrency warmup_iterations iterations (record p {
    counters =
        stream_step message_size (total_iterations concurrency warmup_iterations iterations p.stage)
          i bytes p.counters;
  })

  -- What is under way are bytes. A receive has room for one message, and gives no more than has come.
  unfoldable pub stream_move : StreamMove → Session → Session
  unfolding peer_step begins stream_peer_step
  stream_move (sends i) s = record s {
    client = peer_step concurrency warmup_iterations iterations i s.client;
    under_way =
        if begins concurrency warmup_iterations iterations i s.client
        then s.under_way + message_size
        else s.under_way;
  }
  stream_move (receives i bytes) s =
      let taken : ℕ = if is_waiting (get_elem? s.server.counters.tasks i) then bytes else 0 in
      if ltb s.under_way taken
      then s
      else if ltb message_size taken
      then s
      else record s { server = stream_peer_step i taken s.server; under_way = s.under_way - taken }

  unfoldable pub stream_run_moves : List StreamMove → Session → Session
  unfolding stream_move
  stream_run_moves [] s = s
  stream_run_moves (m ∷ ms) s = stream_run_moves ms (stream_move m s)
