-- ===== src/Serdes.antt =====
-- include/ucxpp/detail/serdes.h: integers to and from network byte order. The bytes of an integer in
-- memory follow the order of the host, which is a parameter `e` here, so that two hosts of different
-- order can meet.
pub mod Bytes
pub mod RoundTrip
use ucxpp.Base.{ℕ, List, ◌++◌, take, drop}
use Bytes.{Endian, object_bytes, object_value, htobe, betoh}

-- `serialize` through a `back_inserter`: the bytes are appended. `w` is `sizeof(T)`.
unfoldable pub serialize : Endian → (w : ℕ) → ℕ → List ℕ → List ℕ
serialize e w value it = it ++ object_bytes e w (htobe e w value)

-- The value read, and the iterator behind it.
unfoldable pub deserialize : Endian → (w : ℕ) → List ℕ → ℕ × List ℕ
deserialize e w it = (betoh e w (object_value e (take w it)), drop w it)
