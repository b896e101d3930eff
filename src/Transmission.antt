-- ===== src/Transmission.antt =====
-- examples/ep_transmission.cc: the exchange of worker addresses over a TCP connection. Each `co_await`
-- on the connection is answered by a `Reply`, which the environment chooses; the bytes that arrive
-- before the end of the stream are the list `input`.
pub mod Reading
pub mod Sending
pub mod Exchange
use ucxpp.Base.{
  ℕ, zero, suc, ◌+◌, ◌-◌, min, List, [], ◌∷◌, ◌++◌, String, Bool, true, false, ltb, ◌==◌,
  if◌then◌else◌, length, take, drop,
}
use ucxpp.Errors.{Status, RuntimeError, plain, Result}
use ucxpp.Ucx.{Run}
use ucxpp.Serdes.{deserialize}
use ucxpp.Serdes.Bytes.{Endian}
use ucxpp.Worker.{Worker}
use ucxpp.Address.{LocalAddress, local_address_serialize, remote_address_new}
use ucxpp.Endpoint.{Endpoint, endpoint_new}

-- What `co_await connection.recv(…)` or `send(…)` comes to: an exception, or a transfer of as many
-- bytes as the system likes. `recv` transfers one byte at least, unless the stream is at its end.
pub data Reply : Type 0 where
  moved : ℕ → Reply
  failed : RuntimeError → Reply

-- How a loop of `recv` calls ends: with a full buffer, the input behind it and the replies not used;
-- with an exception; or still waiting for a reply.
pub data Read : Type 0 where
  got : (buffer input : List ℕ) → List Reply → Read
  threw : RuntimeError → Read
  waiting : Read

-- `while (read < total) { n = co_await recv(buffer + read, total - read); … }`: `buffer` holds the
-- `read` bytes that are filled. A transfer of no byte throws `eof`.
unfoldable pub read_loop :
    (eof : String) → (total read : ℕ) → (buffer input : List ℕ) → List Reply → Read
read_loop eof total read buffer input [] = if ltb read total then waiting else got buffer input []
read_loop eof total read buffer input (failed e ∷ replies) =
    if ltb read total then threw e else got buffer input (failed e ∷ replies)
read_loop eof total read buffer input (moved q ∷ replies) =
    let n = min (q + 1) (min (total - read) (length input)) in
    let rest = read_loop eof total (read + n) (buffer ++ take n input) (drop n input) replies in
    if ltb read total
    then (if n == 0 then threw (plain eof) else rest)
    else got buffer input (moved q ∷ replies)

-- How `from_tcp_connection` ends: with what the endpoint's constructor did, and the input left.
pub data Accepted : Type 0 where
  accepted : Run Endpoint → (input : List ℕ) → Accepted
  threw : RuntimeError → Accepted
  waiting : Accepted

unfoldable pub make_endpoint : (self : ℕ) → Worker → (create : Status × ℕ) → Read → Accepted
unfolding remote_address_new endpoint_new
make_endpoint self worker create (got buffer input replies) =
    accepted (endpoint_new self worker (remote_address_new buffer) create) input
make_endpoint self worker create (threw e) = threw e
make_endpoint self worker create waiting = waiting

-- The second half of `from_tcp_connection`, behind the eight bytes of the length.
unfoldable pub read_address : Endian → (self : ℕ) → Worker → (create : Status × ℕ) → Read → Accepted
unfolding deserialize read_loop make_endpoint
read_address e self worker create (got buffer input replies) =
    let address_length = (deserialize e 8 buffer).0 in
    make_endpoint self worker create
      (read_loop "failed to read address" address_length 0 [] input replies)
read_address e self worker create (threw x) = threw x
read_address e self worker create waiting = waiting

-- `from_tcp_connection`
unfoldable pub from_tcp_connection :
    Endian → (self : ℕ) → Worker → (create : Status × ℕ) → (input : List ℕ) → List Reply → Accepted
unfolding read_loop read_address
from_tcp_connection e self worker create input replies =
    read_address e self worker create
      (read_loop "failed to read address length" 8 0 [] input replies)

-- How a loop of `send` calls ends, and the bytes that were sent.
pub data Outcome : Type 0 where
  done waiting : Outcome
  threw : RuntimeError → Outcome

pub record Sent : Type 0 where
  pub outcome : Outcome
  pub wire : List ℕ

-- `while (sent < buffer.size()) { n = co_await send(&buffer[sent], buffer.size() - sent); … }`. `send`
-- never returns a negative number, so the test of one is left out: the awaitable throws instead.
unfoldable pub send_loop : (buffer : List ℕ) → (sent : ℕ) → (wire : List ℕ) → List Reply → Sent
send_loop buffer sent wire [] = record {
  outcome = if ltb sent (length buffer) then waiting else done;
  wire = wire;
}
send_loop buffer sent wire (failed e ∷ replies) = record {
  outcome = if ltb sent (length buffer) then threw e else done;
  wire = wire;
}
send_loop buffer sent wire (moved q ∷ replies) =
    let n = min q (length buffer - sent) in
    let rest = send_loop buffer (sent + n) (wire ++ take n (drop sent buffer)) replies in
    if ltb sent (length buffer) then rest else record { outcome = done; wire = wire }

-- `send_address`
unfoldable pub send_address : Endian → (memory : ℕ → ℕ) → LocalAddress → List Reply → Sent
unfolding local_address_serialize send_loop
send_address e memory address replies =
    send_loop (local_address_serialize e memory address) 0 [] replies
