-- ===== src/Awaitable/StreamRecv.antt =====
-- include/ucxpp/awaitable.h: `stream_recv_awaitable`. A member that a constructor leaves out is `none`
-- until it is set.
use ucxpp.Base.{ℕ, List, [], ◌∷◌, Bool, true, false, Option, none, some, ◌==◌, if◌then◌else◌}
use ucxpp.Errors.{Status, Result}
use ucxpp.Ucx.{
  RequestParam, stream_recv, Event, post, ucp_request_free, ucp_request_cancel, resume, undefined,
  pure, check, ◌>>◌,
}
use ucxpp.Awaitable.{StatusPtrs, Base, base, check_request_ready}

pub record StreamRecv : Type 0 where
  pub base_ : Base
  pub ep_ : ℕ
  pub worker_ : Option ℕ
  pub received_ : ℕ
  pub buffer_ : ℕ
  pub length_ : ℕ
  pub request_ : Option ℕ

-- The two constructors; the second one also gives its address out, for `cancel`.
unfoldable pub stream_recv_new : (ep buffer length : ℕ) → StreamRecv
stream_recv_new ep buffer length = record {
  base_ = base;
  ep_ = ep;
  worker_ = none;
  received_ = 0;
  buffer_ = buffer;
  length_ = length;
  request_ = none;
}

unfoldable pub stream_recv_cancellable : (ep worker buffer length : ℕ) → StreamRecv
unfolding stream_recv_new
stream_recv_cancellable ep worker buffer length = record (stream_recv_new ep buffer length) {
  worker_ = some worker;
}

abbrev stream_recv_param : (self : ℕ) → RequestParam
stream_recv_param self = record {
  callback = true;
  user_data = some self;
  multi_send = false;
  datatype = none;
  reply_buffer = none;
  recv_info = false;
}

-- `stream_recv_awaitable::await_ready`; `request` is what the native call returns and `received`
-- what it stores at `received_`.
unfoldable pub await_ready :
    StatusPtrs → (self : ℕ) → StreamRecv → (request received : ℕ) → List Event × Bool × StreamRecv
unfolding check_request_ready
await_ready ucx self a request received =
    let (done, b) = check_request_ready ucx a.base_ request in
    let a' = record a { base_ = b; received_ = received } in
    (
      post (stream_recv a.ep_ a.buffer_ a.length_) (stream_recv_param self) ∷ [],
      done,
      if done then a' else record a' { request_ = some request },
    )

-- `stream_recv_awaitable::stream_recv_cb`
unfoldable pub stream_recv_cb :
    (request : ℕ) → Status → (received : ℕ) → StreamRecv → List Event × StreamRecv
stream_recv_cb request status received a = (
  ucp_request_free request ∷ resume a.base_.h_ ∷ [],
  record a { base_ = record (a.base_) { status_ = status }; received_ = received },
)

-- `stream_recv_awaitable::await_resume`
unfoldable pub await_resume : StreamRecv → Result ℕ × StreamRecv
await_resume a = ((check a.base_.status_ "operation failed" >> pure a.received_).1, a)

-- `stream_recv_awaitable::cancel`
unfoldable pub cancel : StreamRecv → List Event × StreamRecv
cancel a = elim a.request_ [
  | none ↦ (undefined ∷ [], a)
  | some request ↦ if request == 0 then ([], a) else elim a.worker_ [
    | none ↦ (undefined ∷ [], a)
    | some worker ↦ (ucp_request_cancel worker request ∷ [], a)
  ]
]
