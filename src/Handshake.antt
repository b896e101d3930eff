-- ===== src/Handshake.antt =====
-- examples/connector.cc and examples/acceptor.cc, behind the making of the connection: both ends send
-- their address and construct an endpoint for the other one's. What becomes of an endpoint when the
-- acceptor's own sending throws is left out.
pub mod Meeting
use ucxpp.Base.{ℕ, List, []}
use ucxpp.Errors.{Status, ok, err}
use ucxpp.Worker.{Worker}
use ucxpp.Address.{LocalAddress}
use ucxpp.Serdes.Bytes.{Endian}
use ucxpp.Transmission.{
  Reply, Accepted, accepted, from_tcp_connection, Outcome, done, Sent, send_address,
}

-- The bytes that an end has sent, and how it ended.
pub record End : Type 0 where
  pub wire : List ℕ
  pub outcome : Accepted

-- `connector::connect` or `acceptor::accept` where a call of the connection has not let it go on.
abbrev stopped : Outcome → Accepted → Accepted
stopped done a = a
stopped (Outcome.threw e) a = Accepted.threw e
stopped Outcome.waiting a = Accepted.waiting

-- What an end is given: the byte order of its host, its memory, the address of its new endpoint, its
-- worker, its own address, what `ucp_ep_create` gives, and the answers to `send` and `recv`.
pub record Host : Type 0 where
  pub endian : Endian
  pub memory : ℕ → ℕ
  pub self : ℕ
  pub worker_ : Worker
  pub address_ : LocalAddress
  pub create : Status × ℕ
  pub sends : List Reply
  pub receives : List Reply

-- `connector::connect`; `input` are the bytes that arrive.
unfoldable pub connect : Host → (input : List ℕ) → End
unfolding send_address from_tcp_connection
connect h input =
    let s = send_address h.endian h.memory h.address_ h.sends in
    record {
      wire = s.wire;
      outcome =
          stopped s.outcome
            (from_tcp_connection h.endian h.self h.worker_ h.create input h.receives);
    }

-- The second half of `acceptor::accept`, if there is an endpoint.
unfoldable pub send_back : Host → Accepted → End
unfolding send_address
send_back h (Accepted.threw e) = record { wire = []; outcome = Accepted.threw e }
send_back h Accepted.waiting = record { wire = []; outcome = Accepted.waiting }
send_back h (accepted (l, err e) input) = record { wire = []; outcome = accepted (l, err e) input }
send_back h (accepted (l, ok ep) input) =
    let s = send_address h.endian h.memory h.address_ h.sends in
    record { wire = s.wire; outcome = stopped s.outcome (accepted (l, ok ep) input) }

-- `acceptor::accept`
unfoldable pub accept : Host → (input : List ℕ) → End
unfolding from_tcp_connection send_back
accept h input =
    send_back h (from_tcp_connection h.endian h.self h.worker_ h.create input h.receives)
