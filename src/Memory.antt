-- ===== src/Memory.antt =====
-- include/ucxpp/memory.h and src/memory.cc.
pub mod LocalOwner
pub mod PackedOwner
pub mod RemoteOwner
use ucxpp.Base.{ℕ, List, [], ◌∷◌, Bool, true, false, Option, none, some, ◌==◌, if◌then◌else◌}
use ucxpp.Errors.{Status, Result, ok}
use ucxpp.Ucx.{
  Event, MemMapParams, ucp_mem_map, ucp_mem_query, ucp_mem_unmap, ucp_rkey_pack,
  ucp_rkey_buffer_release, ucp_ep_rkey_unpack, ucp_rkey_destroy, undefined, AtomicOp, op_add,
  op_and, op_or, op_xor, op_swap, op_cswap, Run, emit, check, pure, ◌>>=◌, ◌>>◌,
}
use ucxpp.Context.{Context}
use ucxpp.Endpoint.{Endpoint, endpoint_handle}
use ucxpp.Awaitable.Send.{Send, send_new, rma_put_awaitable, rma_get_awaitable, rma_atomic_new}

pub record PackedRkey : Type 0 where
  pub buffer_ : ℕ
  pub length_ : ℕ

pub record LocalMemory : Type 0 where
  pub ctx_ : Option Context
  pub mem_ : ℕ

pub record RemoteMemory : Type 0 where
  pub endpoint_ : Option Endpoint
  pub ep_ : ℕ
  pub rkey_ : ℕ

-- `local_memory_handle::local_memory_handle`
unfoldable pub local_memory_new : Context → (mem : ℕ) → LocalMemory
local_memory_new ctx mem = record { ctx_ = some ctx; mem_ = mem }

-- Its move constructor: the new object, and what is left of the other one.
unfoldable pub local_memory_move : LocalMemory → LocalMemory × LocalMemory
local_memory_move other =
    (record { ctx_ = other.ctx_; mem_ = other.mem_ }, record { ctx_ = none; mem_ = 0 })

-- `local_memory_handle::register_mem`; `mapped` is what `ucp_mem_map` returns and stores.
unfoldable pub register_mem :
    Context → (address length : ℕ) → (mapped : Status × ℕ) → Run LocalMemory
unfolding local_memory_new
register_mem ctx address length mapped = do
  emit (
      ucp_mem_map ctx.context_
        (record { address = some address; length = some length; allocate = false }))
  check mapped.0 "failed to map memory"
  pure (local_memory_new ctx mapped.1)

-- `local_memory_handle::allocate_mem`; `queried` is what `ucp_mem_query` returns and stores.
unfoldable pub allocate_mem :
    Context → (length : ℕ) → (mapped queried : Status × ℕ) → Run (ℕ × LocalMemory)
unfolding local_memory_new
allocate_mem ctx length mapped queried = do
  emit (
      ucp_mem_map ctx.context_ (record { address = some 0; length = some length; allocate = true }))
  check mapped.0 "failed to map memory"
  emit (ucp_mem_query mapped.1)
  check queried.0 "failed to get memory address"
  pure (queried.1, local_memory_new ctx mapped.1)

-- `packed_memory_rkey::packed_memory_rkey`
unfoldable pub packed_rkey_new : (buffer length : ℕ) → PackedRkey
packed_rkey_new buffer length = record { buffer_ = buffer; length_ = length }

-- `local_memory_handle::pack_rkey`; `packed` is what `ucp_rkey_pack` returns and stores. A moved-from
-- object has no context to follow.
unfoldable pub pack_rkey : LocalMemory → (packed : Status × ℕ × ℕ) → Run PackedRkey
unfolding packed_rkey_new
pack_rkey m packed = do
  emit (elim m.ctx_ [ none ↦ undefined | some ctx ↦ ucp_rkey_pack ctx.context_ m.mem_ ])
  check packed.0 "failed to pack memory"
  pure (packed_rkey_new packed.1 packed.2)

-- `local_memory_handle::handle`
unfoldable pub local_memory_handle : LocalMemory → ℕ
local_memory_handle m = m.mem_

-- `local_memory_handle::~local_memory_handle`
unfoldable pub local_memory_destroy : LocalMemory → List Event
local_memory_destroy m =
    if m.mem_ == 0
    then []
    else elim m.ctx_ [ none ↦ undefined ∷ [] | some ctx ↦ ucp_mem_unmap ctx.context_ m.mem_ ∷ [] ]

-- The move constructor of `packed_memory_rkey`.
unfoldable pub packed_rkey_move : PackedRkey → PackedRkey × PackedRkey
packed_rkey_move other = (
  record { buffer_ = other.buffer_; length_ = other.length_ },
  record { buffer_ = 0; length_ = 0 },
)

-- `packed_memory_rkey::get_buffer` and `packed_memory_rkey::get_length`
unfoldable pub get_buffer : PackedRkey → ℕ
get_buffer k = k.buffer_

unfoldable pub get_length : PackedRkey → ℕ
get_length k = k.length_

-- `packed_memory_rkey::~packed_memory_rkey`
unfoldable pub packed_rkey_destroy : PackedRkey → List Event
packed_rkey_destroy k = if k.buffer_ == 0 then [] else ucp_rkey_buffer_release k.buffer_ ∷ []

-- `remote_memory_handle::remote_memory_handle`; `unpacked` is what `ucp_ep_rkey_unpack` returns and
-- stores.
unfoldable pub remote_memory_new :
    Endpoint → (packed_rkey_buffer : ℕ) → (unpacked : Status × ℕ) → Run RemoteMemory
unfolding endpoint_handle
remote_memory_new endpoint packed_rkey_buffer unpacked = do
  emit (ucp_ep_rkey_unpack (endpoint_handle endpoint) packed_rkey_buffer)
  check unpacked.0 "failed to unpack memory"
  pure (record { endpoint_ = some endpoint; ep_ = endpoint_handle endpoint; rkey_ = unpacked.1 })

-- Its move constructor.
unfoldable pub remote_memory_move : RemoteMemory → RemoteMemory × RemoteMemory
remote_memory_move other = (
  record { endpoint_ = other.endpoint_; ep_ = other.ep_; rkey_ = other.rkey_ },
  record { endpoint_ = none; ep_ = 0; rkey_ = 0 },
)

-- `remote_memory_handle::endpoint_ptr` and `remote_memory_handle::handle`
unfoldable pub endpoint_ptr : RemoteMemory → Option Endpoint
endpoint_ptr m = m.endpoint_

unfoldable pub rkey_handle : RemoteMemory → ℕ
rkey_handle m = m.rkey_

-- `remote_memory_handle::put`, `get`, `write` and `read`
unfoldable pub put : RemoteMemory → (buffer length raddr : ℕ) → Send
put m buffer length raddr = send_new (rma_put_awaitable m.ep_ buffer length raddr m.rkey_)

unfoldable pub get : RemoteMemory → (buffer length raddr : ℕ) → Send
get m buffer length raddr = send_new (rma_get_awaitable m.ep_ buffer length raddr m.rkey_)

unfoldable pub write : RemoteMemory → (buffer length raddr : ℕ) → Send
write m buffer length raddr = send_new (rma_put_awaitable m.ep_ buffer length raddr m.rkey_)

unfoldable pub read : RemoteMemory → (buffer length raddr : ℕ) → Send
read m buffer length raddr = send_new (rma_get_awaitable m.ep_ buffer length raddr m.rkey_)

-- `remote_memory_handle::~remote_memory_handle`
unfoldable pub remote_memory_destroy : RemoteMemory → List Event
remote_memory_destroy m = if m.rkey_ == 0 then [] else ucp_rkey_destroy m.rkey_ ∷ []

-- The atomic operations. Operands are passed by their addresses; `size` is `sizeof(T)`.
module _ (m : RemoteMemory) (size remote_addr : ℕ) where
  unfoldable pub atomic_fetch_add : (delta old_value : ℕ) → Run Send
  unfolding rma_atomic_new
  atomic_fetch_add delta old_value =
      rma_atomic_new size m.ep_ op_add delta remote_addr m.rkey_ old_value

  unfoldable pub atomic_fetch_and : (bits old_value : ℕ) → Run Send
  unfolding rma_atomic_new
  atomic_fetch_and bits old_value =
      rma_atomic_new size m.ep_ op_and bits remote_addr m.rkey_ old_value

  unfoldable pub atomic_fetch_or : (bits old_value : ℕ) → Run Send
  unfolding rma_atomic_new
  atomic_fetch_or bits old_value =
      rma_atomic_new size m.ep_ op_or bits remote_addr m.rkey_ old_value

  unfoldable pub atomic_fetch_xor : (bits old_value : ℕ) → Run Send
  unfolding rma_atomic_new
  atomic_fetch_xor bits old_value =
      rma_atomic_new size m.ep_ op_xor bits remote_addr m.rkey_ old_value

  unfoldable pub atomic_add : (delta : ℕ) → Run Send
  unfolding rma_atomic_new
  atomic_add delta = rma_atomic_new size m.ep_ op_add delta remote_addr m.rkey_ 0

  unfoldable pub atomic_and : (bits : ℕ) → Run Send
  unfolding rma_atomic_new
  atomic_and bits = rma_atomic_new size m.ep_ op_and bits remote_addr m.rkey_ 0

  unfoldable pub atomic_or : (bits : ℕ) → Run Send
  unfolding rma_atomic_new
  atomic_or bits = rma_atomic_new size m.ep_ op_or bits remote_addr m.rkey_ 0

  unfoldable pub atomic_xor : (bits : ℕ) → Run Send
  unfolding rma_atomic_new
  atomic_xor bits = rma_atomic_new size m.ep_ op_xor bits remote_addr m.rkey_ 0

  unfoldable pub atomic_swap : (new_value old_value : ℕ) → Run Send
  unfolding rma_atomic_new
  atomic_swap new_value old_value =
      rma_atomic_new size m.ep_ op_swap new_value remote_addr m.rkey_ old_value

  unfoldable pub atomic_compare_swap : (expected desired_and_old : ℕ) → Run Send
  unfolding rma_atomic_new
  atomic_compare_swap expected desired_and_old =
      rma_atomic_new size m.ep_ op_cswap expected remote_addr m.rkey_ desired_and_old
