-- ===== src/Transmission/Exchange.antt =====
-- The two ends of examples/ep_transmission.cc together.
use ucxpp.Base.{
  ℕ, zero, suc, ◌+◌, ◌-◌, ◌^◌, ◌≤◌, ◌<◌, ◌≡◌, refl, ap, ◌∙◌, List, [], ◌++◌, append_assoc, ltb,
  if◌then◌else◌, length, take, length-take, take-append_add, arith, Bool-cases, inl, inr,
}
use ucxpp.Errors.{Status, plain}
use ucxpp.Worker.{Worker}
use ucxpp.Address.{LocalAddress, local_address_serialize, copy_n, remote_address_new}
use ucxpp.Endpoint.{endpoint_new}
use ucxpp.Serdes.Bytes.{Endian}
use ucxpp.Serdes.RoundTrip.{wire, length-wire, serialize-wire, deserialize-wire}
use ucxpp.Transmission.{
  Reply, Accepted, accepted, make_endpoint, read_address, from_tcp_connection, send_address, done,
}
use ucxpp.Transmission.Reading.{AllMoved, read_whole, read_short}
use ucxpp.Transmission.Sending.{send_address-whole}

pub length-copy_n : (memory : ℕ → ℕ) (from n : ℕ) → length (copy_n memory from n) ≡ n
length-copy_n memory from zero = refl
length-copy_n memory from (suc n) = ap suc (length-copy_n memory (from + 1) n)

serialize-frame :
    (e : Endian) (memory : ℕ → ℕ) (a : LocalAddress)
    → local_address_serialize e memory a
      ≡ wire 8 a.address_length_ ++ copy_n memory a.address_ a.address_length_
unfolding local_address_serialize
serialize-frame e memory a =
    ap (λ (t : List ℕ). t ++ copy_n memory a.address_ a.address_length_)
      (serialize-wire e 8 a.address_length_ [])

module _ (f : Endian) (self : ℕ) (worker : Worker) (create : Status × ℕ) where
  -- A whole frame in the input, with more behind it.
  read_frame :
      (n : ℕ) (payload rest : List ℕ) (replies : List Reply)
      → n < 256 ^ 8
      → length payload ≡ n
      → AllMoved replies
      → 8 + n < length replies
      → from_tcp_connection f self worker create (wire 8 n ++ (payload ++ rest)) replies
        ≡ accepted (endpoint_new self worker (remote_address_new payload) create) rest
  unfolding from_tcp_connection read_address make_endpoint
  read_frame n payload rest replies small l m h =
      let (left, e, m', k) =
        read_whole "failed to read address length" 8 (wire 8 n) (payload ++ rest) replies
          (length-wire 8 n) m (omega arith) in
      let (left', e', m'', k') =
        read_whole "failed to read address" n payload rest left l m' (omega arith) in
      rw e (rw (deserialize-wire f 8 n small) (rw e'))

  read_short_frame :
      (n : ℕ) (payload : List ℕ) (k : ℕ) (replies : List Reply)
      → n < 256 ^ 8
      → length payload ≡ n
      → k < 8 + n
      → AllMoved replies
      → 8 + n < length replies
      → from_tcp_connection f self worker create (take k (wire 8 n ++ payload)) replies
        ≡ Accepted.threw
            (plain (if ltb k 8 then "failed to read address length" else "failed to read address"))
  unfolding from_tcp_connection read_address make_endpoint
  read_short_frame n payload k replies small l short m h = elim (Bool-cases (ltb k 8)) [
    | inl e ↦ rw e (
        rw (
          read_short "failed to read address length" 8 (take k (wire 8 n ++ payload)) replies
            (ground (arith, length-take k (wire 8 n ++ payload))) m (omega arith)))
    | inr e ↦
        let (left, r, m', u) =
          read_whole "failed to read address length" 8 (wire 8 n) (take (k - 8) payload) replies
            (length-wire 8 n) m (omega arith) in
        rw (e, cut (ground arith))
          (rw r (
            rw (deserialize-wire f 8 n small) (
              rw (
                read_short "failed to read address" n (take (k - 8) payload) left
                  (ground (arith, length-take (k - 8) payload)) m' (omega arith)))))
  ]
    where
      cut : 8 ≤ k → take k (wire 8 n ++ payload) ≡ wire 8 n ++ take (k - 8) payload
      cut le =
          let e : k ≡ length (wire 8 n) + (k - 8) = omega (arith, length-wire 8 n) in
          ap (λ (t : ℕ). take t (wire 8 n ++ payload)) e
          ∙ take-append_add (wire 8 n) payload (k - 8)

  module _ (e : Endian) (memory : ℕ → ℕ) (a : LocalAddress) where
    -- The bytes that the address occupies in memory.
    abbrev native : List ℕ
    native = copy_n memory a.address_ a.address_length_

    -- If `send_address` returns on one host, then `from_tcp_connection` on another, of either byte
    -- order, constructs its endpoint for exactly the bytes of the sent address, and leaves all later
    -- bytes in the connection: provided that no call throws on the receiving side, there are more of
    -- them than bytes, and the length fits in 64 bits. The transfers may be split in any way on both
    -- sides.
    pub send_address-from_tcp_connection :
        (sends receives : List Reply) (later : List ℕ)
        → a.address_length_ < 256 ^ 8
        → (send_address e memory a sends).outcome ≡ done
        → AllMoved receives
        → 8 + a.address_length_ < length receives
        → from_tcp_connection f self worker create
            ((send_address e memory a sends).wire ++ later)
            receives
          ≡ accepted (endpoint_new self worker (remote_address_new native) create) later
    send_address-from_tcp_connection sends receives later small d m h =
        rw (send_address-whole e memory a sends d, serialize-frame e memory a, append_assoc)
          (read_frame a.address_length_ native later receives small
            (length-copy_n memory a.address_ a.address_length_) m h)

    -- If the connection ends after fewer bytes than the serialized address has, `from_tcp_connection`
    -- throws and makes no endpoint; the exception says whether the end came in the length or in the
    -- address. No call on the connection throws, there are more of them than bytes, and the length
    -- fits in 64 bits.
    pub from_tcp_connection-short :
        (k : ℕ) (receives : List Reply)
        → a.address_length_ < 256 ^ 8
        → k < 8 + a.address_length_
        → AllMoved receives
        → 8 + a.address_length_ < length receives
        → from_tcp_connection f self worker create
            (take k (local_address_serialize e memory a))
            receives
          ≡ Accepted.threw (
              plain (if ltb k 8 then "failed to read address length" else "failed to read address"))
    from_tcp_connection-short k receives small short m h = rw (serialize-frame e memory a) (
        read_short_frame a.address_length_ native k receives small
          (length-copy_n memory a.address_ a.address_length_) short m h)
