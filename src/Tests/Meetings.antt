-- ===== src/Tests/Meetings.antt =====
-- examples/connector.cc and examples/acceptor.cc at hosts of different byte order.
use ucxpp.Base.{ℕ, zero, suc, ◌+◌, ◌%◌, ◌≡◌, refl, List, [], ◌∷◌, length, some, arith}
use ucxpp.Errors.{ucs_ok, check_ucs_status}
use ucxpp.Address.{local_address_serialize}
use ucxpp.Serdes.{serialize}
use ucxpp.Serdes.Bytes.{little, big}
use ucxpp.Transmission.{Reply, moved}
use ucxpp.Transmission.Reading.{AllMoved}
use ucxpp.Transmission.Sending.{AllProgress}
use ucxpp.Handshake.{Host, connect, accept}
use ucxpp.Handshake.Meeting.{IsSending, IsReceiving, serialized, met, connect-accept}
use ucxpp.Tests.{worker}

abbrev ones : ℕ → List Reply
ones zero = []
ones (suc n) = moved 1 ∷ ones n

AllProgress-ones : (n : ℕ) → AllProgress (ones n)
AllProgress-ones zero = tt
AllProgress-ones (suc n) = (omega arith, AllProgress-ones n)

AllMoved-ones : (n : ℕ) → AllMoved (ones n)
AllMoved-ones zero = tt
AllMoved-ones (suc n) = AllMoved-ones n

length-ones : (n : ℕ) → length (ones n) ≡ n
length-ones zero = refl
length-ones (suc n) = omega (arith, length-ones n)

abbrev connector : Host
connector = record {
  endian = little;
  memory = λ i. i % 256;
  self = 70;
  worker_ = worker;
  address_ = record { worker_ = some worker; address_ = 16; address_length_ = 3 };
  create = (ucs_ok, 5);
  sends = ones 11;
  receives = ones 13;
}

abbrev acceptor : Host
acceptor = record {
  endian = big;
  memory = λ i. (i + 1) % 256;
  self = 80;
  worker_ = worker;
  address_ = record { worker_ = some worker; address_ = 32; address_length_ = 2 };
  create = (ucs_ok, 6);
  sends = ones 10;
  receives = ones 14;
}

connector_bytes : serialized connector ≡ 0 ∷ 0 ∷ 0 ∷ 0 ∷ 0 ∷ 0 ∷ 0 ∷ 3 ∷ 16 ∷ 17 ∷ 18 ∷ []
unfolding local_address_serialize serialize
connector_bytes = refl

acceptor_bytes : serialized acceptor ≡ 0 ∷ 0 ∷ 0 ∷ 0 ∷ 0 ∷ 0 ∷ 0 ∷ 2 ∷ 33 ∷ 34 ∷ []
unfolding local_address_serialize serialize
acceptor_bytes = refl

connector-IsSending : IsSending connector
connector-IsSending = record {
  small = omega arith;
  progress = AllProgress-ones 11;
  enough = rw connector_bytes (omega arith);
}

acceptor-IsSending : IsSending acceptor
acceptor-IsSending = record {
  small = omega arith;
  progress = AllProgress-ones 10;
  enough = rw acceptor_bytes (omega arith);
}

connector-IsReceiving : IsReceiving connector acceptor
connector-IsReceiving = record { moving = AllMoved-ones 13; enough = omega (arith, length-ones 13) }

acceptor-IsReceiving : IsReceiving acceptor connector
acceptor-IsReceiving = record { moving = AllMoved-ones 14; enough = omega (arith, length-ones 14) }

connect-accept_example :
    (connect connector (serialized acceptor)
      ≡ record { wire = serialized connector; outcome = met connector acceptor })
    × (accept acceptor (serialized connector)
        ≡ record { wire = serialized acceptor; outcome = met acceptor connector })
unfolding connect accept check_ucs_status
connect-accept_example =
    connect-accept connector acceptor (serialized connector) (serialized acceptor)
      connector-IsSending acceptor-IsSending connector-IsReceiving acceptor-IsReceiving refl refl
      refl refl
