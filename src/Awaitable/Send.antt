-- ===== src/Awaitable/Send.antt =====
-- include/ucxpp/awaitable.h: the awaitables with a send-like callback. An awaitable is its class with
-- the members (`SendOp`) and the base. The address of an awaitable is its `self`. The flush and close
-- awaitables of an endpoint are in Endpoint.antt, since they read the endpoint when they are awaited.
use ucxpp.Base.{ℕ, List, [], ◌∷◌, Bool, true, false, none, some, ◌==◌, if◌then◌else◌}
use ucxpp.Errors.{Status, Result, check_ucs_status}
use ucxpp.Ucx.{
  AtomicOp, op_swap, op_cswap, RequestParam, stream_send, tag_send, rma_put, rma_get, atomic,
  worker_flush, Event, post, ucp_request_free, resume, undefined, Run, emit, pure, ◌>>◌,
}
use ucxpp.Awaitable.{StatusPtrs, Base, base, check_request_ready}

-- The members of each class; `size` is `sizeof(T)` of `rma_atomic_awaitable<T>`.
pub data SendOp : Type 0 where
  stream_send_awaitable : (ep buffer length : ℕ) → SendOp
  tag_send_awaitable : (ep buffer length tag : ℕ) → SendOp
  rma_put_awaitable : (ep buffer length remote_addr rkey : ℕ) → SendOp
  rma_get_awaitable : (ep buffer length remote_addr rkey : ℕ) → SendOp
  rma_atomic_awaitable :
      (size ep : ℕ) → AtomicOp → (buffer remote_addr rkey reply_buffer : ℕ) → SendOp
  worker_flush_awaitable : (worker : ℕ) → SendOp

pub record Send : Type 0 where
  pub base_ : Base
  pub op : SendOp

-- The constructors; all of them start from `base_awaitable()`.
unfoldable pub send_new : SendOp → Send
send_new op = record { base_ = base; op = op }

-- `op == UCP_ATOMIC_OP_SWAP || op == UCP_ATOMIC_OP_CSWAP`
abbrev pub needs_reply : AtomicOp → Bool
needs_reply op_swap = true
needs_reply op_cswap = true
needs_reply _ = false

-- The constructor of `rma_atomic_awaitable`, with its assertion.
unfoldable pub rma_atomic_new :
    (size ep : ℕ) → AtomicOp → (buffer remote_addr rkey reply_buffer : ℕ) → Run Send
unfolding send_new
rma_atomic_new size ep op buffer remote_addr rkey reply_buffer =
    let a = send_new (rma_atomic_awaitable size ep op buffer remote_addr rkey reply_buffer) in
    if needs_reply op
    then (if reply_buffer == 0 then emit undefined >> pure a else pure a)
    else pure a

-- `send_awaitable::build_param`
unfoldable pub build_param : (self : ℕ) → RequestParam
build_param self = record {
  callback = true;
  user_data = some self;
  multi_send = true;
  datatype = none;
  reply_buffer = none;
  recv_info = false;
}

-- The parameters of `rma_atomic_awaitable::await_ready`.
unfoldable pub atomic_param : (self size reply_buffer : ℕ) → RequestParam
unfolding build_param
atomic_param self size reply_buffer =
    let p = record (build_param self) { datatype = some size } in
    if reply_buffer == 0 then p else record p { reply_buffer = some reply_buffer }

-- The native call that `await_ready` of each class makes.
unfoldable pub post_of : (self : ℕ) → SendOp → Event
unfolding build_param atomic_param
post_of self (stream_send_awaitable ep buffer length) =
    post (stream_send ep buffer length) (build_param self)
post_of self (tag_send_awaitable ep buffer length tag) =
    post (tag_send ep buffer length tag) (build_param self)
post_of self (rma_put_awaitable ep buffer length remote_addr rkey) =
    post (rma_put ep buffer length remote_addr rkey) (build_param self)
post_of self (rma_get_awaitable ep buffer length remote_addr rkey) =
    post (rma_get ep buffer length remote_addr rkey) (build_param self)
post_of self (rma_atomic_awaitable size ep op buffer remote_addr rkey reply_buffer) =
    post (atomic ep op buffer 1 remote_addr rkey) (atomic_param self size reply_buffer)
post_of self (worker_flush_awaitable worker) = post (worker_flush worker) (build_param self)

-- `await_ready`; `request` is what the native call returns.
unfoldable pub await_ready :
    StatusPtrs → (self : ℕ) → Send → (request : ℕ) → List Event × Bool × Send
unfolding post_of check_request_ready
await_ready ucx self a request =
    let (done, b) = check_request_ready ucx a.base_ request in
    (post_of self a.op ∷ [], done, record a { base_ = b })

-- `send_awaitable::send_cb`, up to the point where the coroutine goes on.
unfoldable pub send_cb : (request : ℕ) → Status → Base → List Event × Base
send_cb request status b =
    (ucp_request_free request ∷ resume b.h_ ∷ [], record b { status_ = status })

-- `send_awaitable::await_resume`
unfoldable pub await_resume : Base → Result (Unit {0})
await_resume b = check_ucs_status b.status_ "operation failed"
