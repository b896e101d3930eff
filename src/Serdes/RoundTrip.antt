-- ===== src/Serdes/RoundTrip.antt =====
-- What include/ucxpp/detail/serdes.h puts on the wire, for hosts of either byte order.
use mathlib.Core.List.{reverse-reverse}
use ucxpp.Base.{
  ℕ, ◌^◌, ◌<◌, ◌≡◌, refl, ap, ◌∙◌, sym, List, [], ◌++◌, reverse, length, length-reverse,
  take-append_length, drop-append_length, append-nil,
}
use ucxpp.Serdes.{serialize, deserialize}
use ucxpp.Serdes.Bytes.{
  Endian, little, big, le_bytes, le_value, object_bytes, object_value, htobe, betoh, AreBytes,
  be_value, length-le_bytes, AreBytes-le_bytes, AreBytes-reverse, le_value-le_bytes,
  le_bytes-le_value, be_value-reverse,
}

-- The bytes of `x`, most significant first.
pub wire : (w : ℕ) → ℕ → List ℕ
wire w x = reverse (le_bytes w x)

pub length-wire : (w x : ℕ) → length (wire w x) ≡ w
unfolding wire
length-wire w x = length-reverse (le_bytes w x) ∙ length-le_bytes w x

pub AreBytes-wire : (w x : ℕ) → AreBytes (wire w x)
unfolding wire
AreBytes-wire w x = AreBytes-reverse (le_bytes w x) (AreBytes-le_bytes w x)

le_bytes-of_length :
    (w : ℕ) (bs : List ℕ) → length bs ≡ w → AreBytes bs → le_bytes w (le_value bs) ≡ bs
le_bytes-of_length w bs e h = rw (← e) (le_bytes-le_value bs h)

pub object_bytes-htobe : (e : Endian) (w x : ℕ) → object_bytes e w (htobe e w x) ≡ wire w x
unfolding wire
object_bytes-htobe little w x =
    le_bytes-of_length w (wire w x) (length-wire w x) (AreBytes-wire w x)
object_bytes-htobe big w x = refl

pub betoh-object_value :
    (e : Endian) (w : ℕ) (bs : List ℕ)
    → length bs ≡ w
    → AreBytes bs
    → betoh e w (object_value e bs) ≡ be_value 0 bs
betoh-object_value little w bs l h =
    ap (λ (t : List ℕ). le_value (reverse t)) (le_bytes-of_length w bs l h)
    ∙ sym (be_value-reverse bs)
betoh-object_value big w bs l h = sym (be_value-reverse bs)

pub serialize-wire : (e : Endian) (w x : ℕ) (it : List ℕ) → serialize e w x it ≡ it ++ wire w x
unfolding serialize
serialize-wire e w x it = ap (◌++◌ it) (object_bytes-htobe e w x)

pub value-wire : (w x : ℕ) → x < 256 ^ w → be_value 0 (wire w x) ≡ x
unfolding wire
value-wire w x h =
    be_value-reverse (reverse (le_bytes w x))
    ∙ ap le_value (reverse-reverse (le_bytes w x))
    ∙ le_value-le_bytes w x h

-- On a host of either byte order, `serialize` appends exactly `w` bytes to what the iterator already
-- wrote, and they spell the value, most significant byte first, if it fits in `w` bytes.
pub serialize-be_value :
    (e : Endian) (w x : ℕ) (it : List ℕ)
    → x < 256 ^ w
    → (out : List ℕ) × (serialize e w x it ≡ it ++ out) × (length out ≡ w) × (be_value 0 out ≡ x)
serialize-be_value e w x it h =
    (wire w x, serialize-wire e w x it, length-wire w x, value-wire w x h)

-- Where `w` bytes are in front of it, `deserialize` reads them as a number, most significant byte
-- first, on a host of either byte order, and leaves the iterator at what follows them.
pub deserialize-be_value :
    (e : Endian) (w : ℕ) (bs rest : List ℕ)
    → length bs ≡ w
    → AreBytes bs
    → deserialize e w (bs ++ rest) ≡ (be_value 0 bs, rest)
unfolding deserialize
deserialize-be_value e w bs rest l h = rw (← l) (
    rw (take-append_length bs rest, drop-append_length bs rest)
      (λ i. (betoh-object_value e (length bs) bs refl h i, rest)))

pub deserialize-wire : (f : Endian) (w x : ℕ) → x < 256 ^ w → (deserialize f w (wire w x)).0 ≡ x
deserialize-wire f w x h =
    ap (λ (t : List ℕ). (deserialize f w t).0) (sym (append-nil (wire w x)))
    ∙ rw (deserialize-be_value f w (wire w x) [] (length-wire w x) (AreBytes-wire w x))
        (value-wire w x h)

-- A value that fits in `w` bytes and that one host serializes is read back by another one, whatever
-- the byte orders of the two are and whatever bytes follow.
pub deserialize-serialize :
    (e f : Endian) (w x : ℕ) (rest : List ℕ)
    → x < 256 ^ w
    → deserialize f w (serialize e w x [] ++ rest) ≡ (x, rest)
deserialize-serialize e f w x rest h = rw (serialize-wire e w x []) (
    deserialize-be_value f w (wire w x) rest (length-wire w x) (AreBytes-wire w x) ∙ λ i.
    (value-wire w x h i, rest))
