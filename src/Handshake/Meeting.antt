-- ===== src/Handshake/Meeting.antt =====
-- A connector (examples/connector.cc) and an acceptor (examples/acceptor.cc) at one connection.
use ucxpp.Base.{
  ℕ, ◌+◌, ◌^◌, ◌≤◌, ◌<◌, ◌≡◌, refl, ap, ◌∙◌, List, [], ◌∷◌, append-nil, true, none, length,
}
use ucxpp.Ucx.{ucp_ep_create}
use ucxpp.Errors.{ok, succeeded, check_ucs_status, check_ucs_status-succeeded}
use ucxpp.Address.{local_address_serialize, copy_n, remote_address_new, remote_get_address}
use ucxpp.Endpoint.{endpoint_new}
use ucxpp.Transmission.{Accepted, accepted, from_tcp_connection, Sent, done, send_address}
use ucxpp.Transmission.Reading.{AllMoved}
use ucxpp.Transmission.Sending.{AllProgress, send_address-done}
use ucxpp.Transmission.Exchange.{send_address-from_tcp_connection}
use ucxpp.Handshake.{Host, End, connect, send_back, accept}

-- The bytes of a host's address, and as they are sent.
abbrev pub native : Host → List ℕ
native h = copy_n h.memory h.address_.address_ h.address_.address_length_

abbrev pub serialized : Host → List ℕ
serialized h = local_address_serialize h.endian h.memory h.address_

-- No call on the connection throws, each `send` transfers something, and there are as many of them as
-- bytes; the length fits in 64 bits.
pub record IsSending (h : Host) : Type 0 where
  pub small : h.address_.address_length_ < 256 ^ 8
  pub progress : AllProgress h.sends
  pub enough : length (serialized h) ≤ length h.sends

-- No call of `recv` throws, and there are more of them than the bytes of the peer's address.
pub record IsReceiving (h peer : Host) : Type 0 where
  pub moving : AllMoved h.receives
  pub enough : 8 + peer.address_.address_length_ < length h.receives

sent :
    (h : Host)
    → IsSending h
    → send_address h.endian h.memory h.address_ h.sends
      ≡ record { outcome = done; wire = serialized h }
sent h s = send_address-done h.endian h.memory h.address_ h.sends s.progress s.enough

-- The endpoint that a host constructs for the address of the other one, which was created natively; no
-- byte is left over.
abbrev pub met : Host → Host → Accepted
met h peer =
    accepted
      (
        ucp_ep_create h.worker_.worker_ (native peer) h.self ∷ [],
        ok (record {
          worker_ = h.worker_;
          ep_ = h.create.1;
          close_request_ = none;
          peer_ = remote_address_new (native peer);
        }),
      )
      []

constructed :
    (h peer : Host)
    → succeeded h.create.0 ≡ true
    → accepted (endpoint_new h.self h.worker_ (remote_address_new (native peer)) h.create) []
      ≡ met h peer
unfolding endpoint_new remote_get_address remote_address_new
constructed h peer c =
    let created : check_ucs_status h.create.0 "failed to create ep" ≡ ok tt =
      check_ucs_status-succeeded h.create.0 "failed to create ep" ∙ rw c refl in
    rw created refl

-- What an end makes of the serialized address of the other one.
received :
    (h peer : Host)
    → IsSending peer
    → IsReceiving h peer
    → succeeded h.create.0 ≡ true
    → from_tcp_connection h.endian h.self h.worker_ h.create (serialized peer) h.receives
      ≡ met h peer
received h peer s r c =
    rw
      (
        ← append-nil (serialized peer),
        ← ap (λ (t : Sent). t.wire) (sent peer s),
        ← constructed h peer c,
      )
      (send_address-from_tcp_connection h.endian h.self h.worker_ h.create peer.endian peer.memory
        peer.address_ peer.sends h.receives [] s.small (ap (λ (t : Sent). t.outcome) (sent peer s))
        r.moving r.enough)

send_back-met :
    (h peer : Host)
    → IsSending h
    → send_back h (met h peer) ≡ record { wire = serialized h; outcome = met h peer }
unfolding send_back
send_back-met h peer s = rw (sent h s) refl

-- Where a connector and an acceptor read exactly what the other one wrote, both end with an endpoint
-- for the other one's address, no byte is left over, and each has sent its whole address: provided
-- that no call on the connection throws, each `send` transfers something, there are enough of them
-- and of `recv`, both native endpoints can be created, and the lengths fit in 64 bits. The hosts may
-- differ in their byte order.
pub connect-accept :
    (c a : Host) (from_connector from_acceptor : List ℕ)
    → IsSending c
    → IsSending a
    → IsReceiving c a
    → IsReceiving a c
    → succeeded c.create.0 ≡ true
    → succeeded a.create.0 ≡ true
    → from_connector ≡ (connect c from_acceptor).wire
    → from_acceptor ≡ (accept a from_connector).wire
    → (connect c from_acceptor ≡ record { wire = serialized c; outcome = met c a })
      × (accept a from_connector ≡ record { wire = serialized a; outcome = met a c })
unfolding connect accept
connect-accept c a from_connector from_acceptor sc sa rc ra kc ka fc fa = (connecting, accepting)
  where
    first : from_connector ≡ serialized c
    first = fc ∙ ap (λ (t : Sent). t.wire) (sent c sc)

    accepting : accept a from_connector ≡ record { wire = serialized a; outcome = met a c }
    accepting = rw first (rw (received a c sc ra ka) (send_back-met a c sa))

    second : from_acceptor ≡ serialized a
    second = fa ∙ ap (λ (t : End). t.wire) accepting

    connecting : connect c from_acceptor ≡ record { wire = serialized c; outcome = met c a }
    connecting = rw second (rw (sent c sc, received c a sa rc kc) refl)
