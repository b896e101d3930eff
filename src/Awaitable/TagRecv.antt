-- ===== src/Awaitable/TagRecv.antt =====
-- include/ucxpp/awaitable.h: `tag_recv_awaitable`.
use ucxpp.Base.{ℕ, List, [], ◌∷◌, Bool, true, false, none, some, ◌==◌, if◌then◌else◌}
use ucxpp.Errors.{Status, Result}
use ucxpp.Ucx.{
  RequestParam, tag_recv, Event, post, ucp_request_free, ucp_request_cancel, resume, pure, check,
  ◌>>◌,
}
use ucxpp.Awaitable.{StatusPtrs, Base, base, check_request_ready}

pub record TagRecv : Type 0 where
  pub base_ : Base
  pub worker_ : ℕ
  pub request_ : ℕ
  pub buffer_ : ℕ
  pub length_ : ℕ
  pub tag_ : ℕ
  pub tag_mask_ : ℕ
  pub info_length : ℕ
  pub info_sender_tag : ℕ

-- The two constructors, which differ in giving the address out. `recv_info_` holds what it held.
unfoldable pub tag_recv_new : (worker buffer length tag tag_mask : ℕ) → (garbage : ℕ × ℕ) → TagRecv
tag_recv_new worker buffer length tag tag_mask garbage = record {
  base_ = base;
  worker_ = worker;
  request_ = 0;
  buffer_ = buffer;
  length_ = length;
  tag_ = tag;
  tag_mask_ = tag_mask;
  info_length = garbage.0;
  info_sender_tag = garbage.1;
}

abbrev tag_recv_param : (self : ℕ) → RequestParam
tag_recv_param self = record {
  callback = true;
  user_data = some self;
  multi_send = false;
  datatype = none;
  reply_buffer = none;
  recv_info = true;
}

-- `tag_recv_awaitable::await_ready`; `info` is what UCX stores at `recv_info_`.
unfoldable pub await_ready :
    StatusPtrs → (self : ℕ) → TagRecv → (request : ℕ) → (info : ℕ × ℕ) → List Event × Bool × TagRecv
unfolding check_request_ready
await_ready ucx self a request info =
    let (done, b) = check_request_ready ucx a.base_ request in
    let a' = record a { base_ = b; info_length = info.0; info_sender_tag = info.1 } in
    (
      post (tag_recv a.worker_ a.buffer_ a.length_ a.tag_ a.tag_mask_) (tag_recv_param self) ∷ [],
      done,
      if done then a' else record a' { request_ = request },
    )

-- `tag_recv_awaitable::tag_recv_cb`
unfoldable pub tag_recv_cb :
    (request : ℕ) → Status → (info : ℕ × ℕ) → TagRecv → List Event × TagRecv
tag_recv_cb request status info a = (
  ucp_request_free request ∷ resume a.base_.h_ ∷ [],
  record a {
    base_ = record (a.base_) { status_ = status };
    info_length = info.0;
    info_sender_tag = info.1;
  },
)

-- `tag_recv_awaitable::await_resume`
unfoldable pub await_resume : TagRecv → Result (ℕ × ℕ) × TagRecv
await_resume a = (
  (check a.base_.status_ "error in ucp_tag_recv_nbx" >> pure (a.info_length, a.info_sender_tag)).1,
  record a { request_ = 0 },
)

-- `tag_recv_awaitable::cancel`
unfoldable pub cancel : TagRecv → List Event × TagRecv
cancel a =
    if a.request_ == 0
    then ([], a)
    else (ucp_request_cancel a.worker_ a.request_ ∷ [], record a { request_ = 0 })
