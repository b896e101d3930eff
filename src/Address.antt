-- ===== src/Address.antt =====
-- include/ucxpp/address.h and src/address.cc. A shared pointer that may be null is an `Option`.
pub mod Ownership
use ucxpp.Base.{
  ℕ, zero, suc, ◌+◌, List, [], ◌∷◌, ◌++◌, Option, none, some, ◌==◌, if◌then◌else◌, length,
}
use ucxpp.Errors.{Status, Result, ok}
use ucxpp.Ucx.{
  Event, ucp_worker_get_address, ucp_worker_release_address, undefined, Run, emit, check, pure,
  ◌>>=◌, ◌>>◌,
}
use ucxpp.Worker.{Worker}
use ucxpp.Serdes.{serialize}
use ucxpp.Serdes.Bytes.{Endian}

pub record LocalAddress : Type 0 where
  pub worker_ : Option Worker
  pub address_ : ℕ
  pub address_length_ : ℕ

-- `local_address::local_address`
unfoldable pub local_address_new : Worker → (address address_length : ℕ) → LocalAddress
local_address_new worker address address_length = record {
  worker_ = some worker;
  address_ = address;
  address_length_ = address_length;
}

-- The move constructor: the new object, and what is left of the other one.
unfoldable pub local_address_move : LocalAddress → LocalAddress × LocalAddress
local_address_move other = (
  record {
    worker_ = other.worker_;
    address_ = other.address_;
    address_length_ = other.address_length_;
  },
  record other { worker_ = none; address_ = 0 },
)

-- The move assignment, to another object than `other`.
unfoldable pub local_address_assign :
    (self other : LocalAddress) → List Event × LocalAddress × LocalAddress
local_address_assign self other = (
  [],
  record {
    worker_ = other.worker_;
    address_ = other.address_;
    address_length_ = other.address_length_;
  },
  record other { worker_ = none; address_ = 0 },
)

-- `std::copy_n` from a pointer; `memory` gives the byte at each address.
abbrev pub copy_n : (memory : ℕ → ℕ) → (from n : ℕ) → List ℕ
copy_n memory from zero = []
copy_n memory from (suc n) = memory from ∷ copy_n memory (from + 1) n

-- `local_address::serialize`; `size_t` has 8 bytes.
unfoldable pub local_address_serialize : Endian → (memory : ℕ → ℕ) → LocalAddress → List ℕ
unfolding serialize
local_address_serialize e memory a =
    let buffer = serialize e 8 a.address_length_ [] in
    buffer ++ copy_n memory a.address_ a.address_length_

-- `local_address::get_address`
unfoldable pub local_get_address : LocalAddress → ℕ
local_get_address a = a.address_

-- `local_address::get_length`
unfoldable pub local_get_length : LocalAddress → ℕ
local_get_length a = a.address_length_

-- `local_address::~local_address`
unfoldable pub local_address_destroy : LocalAddress → List Event
local_address_destroy a = if a.address_ == 0 then [] else elim a.worker_ [
  | none ↦ undefined ∷ []
  | some worker ↦ ucp_worker_release_address worker.worker_ a.address_ ∷ []
]

-- `worker::get_address` of src/worker.cc; `got` is what `ucp_worker_get_address` returns and stores.
unfoldable pub get_address : Worker → (got : Status × ℕ × ℕ) → Run LocalAddress
unfolding local_address_new
get_address w got = do
  emit (ucp_worker_get_address w.worker_)
  check got.0 "failed to get address"
  pure (local_address_new w got.1 got.2)

-- `remote_address`: a copy of the bytes.
pub record RemoteAddress : Type 0 where
  pub address_ : List ℕ

-- Its constructors, from a vector that is copied or moved.
unfoldable pub remote_address_new : List ℕ → RemoteAddress
remote_address_new address = record { address_ = address }

-- `remote_address::get_address`, as the bytes it points at, and `remote_address::get_length`.
unfoldable pub remote_get_address : RemoteAddress → List ℕ
remote_get_address a = a.address_

unfoldable pub remote_get_length : RemoteAddress → ℕ
remote_get_length a = length a.address_
