-- ===== src/Serdes/Bytes.antt =====
-- Object representations of unsigned integers, and the conversions of <endian.h> that
-- include/ucxpp/detail/serdes.h calls.
use ucxpp.Base.{
  ℕ, zero, suc, ◌+◌, ◌*◌, ◌/◌, ◌%◌, ◌^◌, ◌<◌, ◌≡◌, refl, ap, List, [], ◌∷◌, reverse, reverse_aux,
  arith, length,
}
use native.Mathlib.Nat.{pow-suc}

pub data Endian : Type 0 where
  little big : Endian

abbrev pub le_bytes : (w : ℕ) → ℕ → List ℕ
le_bytes zero x = []
le_bytes (suc w) x = x % 256 ∷ le_bytes w (x / 256)

abbrev pub le_value : List ℕ → ℕ
le_value [] = 0
le_value (b ∷ bs) = b + 256 * le_value bs

-- `reinterpret_cast<uint8_t *>(&value)`, over `sizeof(T)` bytes.
abbrev pub object_bytes : Endian → (w : ℕ) → ℕ → List ℕ
object_bytes little w x = le_bytes w x
object_bytes big w x = reverse (le_bytes w x)

abbrev pub object_value : Endian → List ℕ → ℕ
object_value little bs = le_value bs
object_value big bs = le_value (reverse bs)

abbrev pub byteswap : (w : ℕ) → ℕ → ℕ
byteswap w x = le_value (reverse (le_bytes w x))

-- `htobe16`, `htobe32`, `htobe64`, by the width in bytes.
abbrev pub htobe : Endian → (w : ℕ) → ℕ → ℕ
htobe little w x = byteswap w x
htobe big w x = x

-- `be16toh`, `be32toh`, `be64toh`.
abbrev pub betoh : Endian → (w : ℕ) → ℕ → ℕ
betoh little w x = byteswap w x
betoh big w x = x

-- Bytes are numbers below 256.
abbrev pub AreBytes : List ℕ → Type 0
AreBytes [] = Unit
AreBytes (b ∷ bs) = (b < 256) × AreBytes bs

-- The number that a sequence of bytes spells, most significant first.
abbrev pub be_value : ℕ → List ℕ → ℕ
be_value acc [] = acc
be_value acc (b ∷ bs) = be_value (acc * 256 + b) bs

pub length-le_bytes : (w x : ℕ) → length (le_bytes w x) ≡ w
length-le_bytes zero x = refl
length-le_bytes (suc w) x = ap suc (length-le_bytes w (x / 256))

pub AreBytes-le_bytes : (w x : ℕ) → AreBytes (le_bytes w x)
AreBytes-le_bytes zero x = tt
AreBytes-le_bytes (suc w) x = (omega arith, AreBytes-le_bytes w (x / 256))

AreBytes-reverse_aux : (xs ys : List ℕ) → AreBytes xs → AreBytes ys → AreBytes (reverse_aux xs ys)
AreBytes-reverse_aux [] ys hx hy = hy
AreBytes-reverse_aux (x ∷ xs) ys hx hy = AreBytes-reverse_aux xs (x ∷ ys) hx.1 (hx.0, hy)

pub AreBytes-reverse : (xs : List ℕ) → AreBytes xs → AreBytes (reverse xs)
AreBytes-reverse xs h = AreBytes-reverse_aux xs [] h tt

pub le_value-le_bytes : (w x : ℕ) → x < 256 ^ w → le_value (le_bytes w x) ≡ x
le_value-le_bytes zero x h = omega arith
le_value-le_bytes (suc w) x h =
    omega (arith, le_value-le_bytes w (x / 256) (omega (arith, pow-suc 256 w)))

pub le_bytes-le_value : (bs : List ℕ) → AreBytes bs → le_bytes (length bs) (le_value bs) ≡ bs
le_bytes-le_value [] h = refl
le_bytes-le_value (b ∷ bs) h = ground (arith, le_bytes-le_value bs h.1)

pub le_value-lt : (bs : List ℕ) → AreBytes bs → le_value bs < 256 ^ length bs
le_value-lt [] h = omega arith
le_value-lt (b ∷ bs) h = omega (arith, le_value-lt bs h.1, pow-suc 256 (length bs))

be_value-le_value : (xs ys : List ℕ) → be_value (le_value ys) xs ≡ le_value (reverse_aux xs ys)
be_value-le_value [] ys = refl
be_value-le_value (x ∷ xs) ys =
    let e : le_value ys * 256 + x ≡ x + 256 * le_value ys = omega arith in
    rw e (be_value-le_value xs (x ∷ ys))

pub be_value-reverse : (xs : List ℕ) → be_value 0 xs ≡ le_value (reverse xs)
be_value-reverse xs = be_value-le_value xs []
