-- ===== src/Tests/Wire.antt =====
-- examples/ep_transmission.cc and include/ucxpp/detail/serdes.h on concrete bytes.
use ucxpp.Base.{ℕ, zero, suc, ◌%◌, ◌≡◌, refl, List, [], ◌∷◌, ◌++◌, length, take, some, arith}
use ucxpp.Errors.{ucs_ok, plain}
use ucxpp.Address.{LocalAddress, local_address_serialize, remote_address_new}
use ucxpp.Endpoint.{endpoint_new}
use ucxpp.Serdes.{serialize, deserialize}
use ucxpp.Serdes.Bytes.{little, big}
use ucxpp.Serdes.RoundTrip.{deserialize-serialize}
use ucxpp.Transmission.{Reply, moved, Accepted, accepted, from_tcp_connection, done, send_address}
use ucxpp.Transmission.Sending.{AllProgress, send_address-done}
use ucxpp.Transmission.Exchange.{send_address-from_tcp_connection, from_tcp_connection-short}
use ucxpp.Tests.{worker}

serialize_bytes : serialize little 4 258 [] ≡ 0 ∷ 0 ∷ 1 ∷ 2 ∷ []
unfolding serialize
serialize_bytes = refl

deserialize-serialize_example :
    deserialize big 4 (serialize little 4 70000 [] ++ 9 ∷ []) ≡ (70000, 9 ∷ [])
deserialize-serialize_example = deserialize-serialize little big 4 70000 (9 ∷ []) (omega arith)

abbrev memory : ℕ → ℕ
memory i = i % 256

abbrev address : LocalAddress
address = record { worker_ = some worker; address_ = 16; address_length_ = 3 }

-- Two transfers, and each of the receiver's.
abbrev sends : List Reply
sends = moved 5 ∷ moved 6 ∷ []

abbrev receives : List Reply
receives =
    moved 3
    ∷ moved 2
    ∷ moved 9
    ∷ moved 1
    ∷ moved 1
    ∷ moved 0
    ∷ moved 1
    ∷ moved 1
    ∷ moved 1
    ∷ moved 1
    ∷ moved 1
    ∷ moved 1
    ∷ []

sent_all : (send_address little memory address sends).outcome ≡ done
unfolding send_address local_address_serialize
sent_all = refl

send_address-from_tcp_connection_example :
    from_tcp_connection big 7 worker
      (ucs_ok, 5)
      ((send_address little memory address sends).wire ++ 8 ∷ 8 ∷ [])
      receives
    ≡ accepted
        (endpoint_new 7 worker (remote_address_new (16 ∷ 17 ∷ 18 ∷ [])) (ucs_ok, 5))
        (8 ∷ 8 ∷ [])
send_address-from_tcp_connection_example =
    send_address-from_tcp_connection big 7 worker (ucs_ok, 5) little memory address sends receives
      (8 ∷ 8 ∷ []) (omega arith) sent_all tt (omega arith)

from_tcp_connection-short_example :
    from_tcp_connection big 7 worker
      (ucs_ok, 5)
      (take 9 (local_address_serialize little memory address))
      receives
    ≡ Accepted.threw (plain "failed to read address")
from_tcp_connection-short_example =
    from_tcp_connection-short big 7 worker (ucs_ok, 5) little memory address 9 receives
      (omega arith) (omega arith) tt (omega arith)

eleven_or_fewer : length (local_address_serialize little memory address) ≡ 11
unfolding local_address_serialize serialize
eleven_or_fewer = refl

abbrev ones : ℕ → List Reply
ones zero = []
ones (suc n) = moved 1 ∷ ones n

AllProgress-ones : (n : ℕ) → AllProgress (ones n)
AllProgress-ones zero = tt
AllProgress-ones (suc n) = (omega arith, AllProgress-ones n)

send_address-done_example :
    send_address little memory address (moved 4 ∷ ones 10)
    ≡ record { outcome = done; wire = local_address_serialize little memory address }
send_address-done_example =
    send_address-done little memory address (moved 4 ∷ ones 10) (omega arith, AllProgress-ones 10)
      (omega (arith, eleven_or_fewer))
