-- ===== src/Endpoint.antt =====
-- include/ucxpp/endpoint.h and src/endpoint.cc, with the flush and close awaitables of an endpoint
-- (src/awaitable.cc). `close_request_` is `none` until it is set: the constructor leaves it out.
pub mod Closing
use ucxpp.Base.{ℕ, List, [], ◌∷◌, ◌++◌, Bool, true, false, Option, none, some, ◌==◌, if◌then◌else◌}
use ucxpp.Errors.{Status, Result, ok, err}
use ucxpp.Ucx.{
  Event, RequestParam, ucp_ep_create, ucp_ep_print_info, ucp_ep_close_nb, ucp_request_free,
  undefined, ep_flush, ep_close, post, Run, emit, check, pure, ◌>>=◌, ◌>>◌,
}
use ucxpp.Worker.{Worker}
use ucxpp.Address.{RemoteAddress, remote_get_address}
use ucxpp.Awaitable.{StatusPtrs, Base, base, check_request_ready}
use ucxpp.Awaitable.Protocol.{Progress, suspended, finished, co_await, completes}
use ucxpp.Awaitable.Send.{Send, send_new, stream_send_awaitable, tag_send_awaitable, build_param}
use ucxpp.Awaitable.StreamRecv.{StreamRecv, stream_recv_new}

pub record Endpoint : Type 0 where
  pub worker_ : Worker
  pub ep_ : ℕ
  pub close_request_ : Option ℕ
  pub peer_ : RemoteAddress

-- `endpoint::endpoint`; `self` is the address of the object, which the error handler is given, and
-- `create` what `ucp_ep_create` returns and stores.
unfoldable pub endpoint_new :
    (self : ℕ) → Worker → RemoteAddress → (create : Status × ℕ) → Run Endpoint
unfolding remote_get_address
endpoint_new self worker peer create = do
  emit (ucp_ep_create worker.worker_ (remote_get_address peer) self)
  check create.0 "failed to create ep"
  pure (record { worker_ = worker; ep_ = create.1; close_request_ = none; peer_ = peer })

-- `endpoint::error_cb` once the test of `close_request_` was false: `request` is what
-- `ucp_ep_close_nb` returns.
unfoldable pub close_on_error : StatusPtrs → (ep_h request : ℕ) → Endpoint → List Event × Endpoint
close_on_error ucx ep_h request ep = (
  ucp_ep_close_nb ep_h ∷ [],
  if ucx.is_err request
      then record ep { close_request_ = some 0; ep_ = 0 }
      else if ucx.is_ptr request
      then record ep { close_request_ = some request }
      else record ep { close_request_ = some 0; ep_ = 0 },
)

-- `endpoint::error_cb`. To test a `close_request_` that was never set is undefined; `garbage` is what
-- the test reads.
unfoldable pub error_cb : StatusPtrs → (garbage ep_h request : ℕ) → Endpoint → List Event × Endpoint
unfolding close_on_error
error_cb ucx garbage ep_h request ep = elim ep.close_request_ [
  | some r ↦ if r == 0 then close_on_error ucx ep_h request ep else ([], ep)
  | none ↦
      let (l, ep') = if garbage == 0 then close_on_error ucx ep_h request ep else ([], ep) in
      (undefined ∷ l, ep')
]

-- `endpoint::worker_ptr`
unfoldable pub worker_ptr : Endpoint → Worker
worker_ptr ep = ep.worker_

-- `endpoint::print`
unfoldable pub print : Endpoint → List Event
print ep = ucp_ep_print_info ep.ep_ ∷ []

-- `endpoint::handle`
unfoldable pub endpoint_handle : Endpoint → ℕ
endpoint_handle ep = ep.ep_

-- `endpoint::get_address`
unfoldable pub peer_address : Endpoint → RemoteAddress
peer_address ep = ep.peer_

-- `endpoint::stream_send`
unfoldable pub endpoint_stream_send : Endpoint → (buffer length : ℕ) → Send
endpoint_stream_send ep buffer length = send_new (stream_send_awaitable ep.ep_ buffer length)

-- `endpoint::stream_recv`
unfoldable pub endpoint_stream_recv : Endpoint → (buffer length : ℕ) → StreamRecv
endpoint_stream_recv ep buffer length = stream_recv_new ep.ep_ buffer length

-- `endpoint::tag_send`
unfoldable pub endpoint_tag_send : Endpoint → (buffer length tag : ℕ) → Send
endpoint_tag_send ep buffer length tag = send_new (tag_send_awaitable ep.ep_ buffer length tag)

-- `endpoint::flush`: the new base, and the endpoint that the awaitable holds.
unfoldable pub endpoint_flush : Endpoint → Base × Endpoint
endpoint_flush ep = (base, ep)

-- `ep_flush_awaitable::await_ready`; the awaitable holds the endpoint, whose handle is read now.
unfoldable pub flush_await_ready :
    StatusPtrs → (self : ℕ) → Endpoint → Base → (request : ℕ) → List Event × Bool × Base
unfolding check_request_ready build_param endpoint_handle
flush_await_ready ucx self ep b request =
    let (done, b') = check_request_ready ucx b request in
    (post (ep_flush (endpoint_handle ep)) (build_param self) ∷ [], done, b')

-- `ep_close_awaitable::await_ready`: a request that is not done is kept in the endpoint.
unfoldable pub close_await_ready :
    StatusPtrs → (self : ℕ) → Endpoint → Base → (request : ℕ) → List Event × Bool × Base × Endpoint
unfolding check_request_ready build_param endpoint_handle
close_await_ready ucx self ep b request =
    let (done, b') = check_request_ready ucx b request in
    (
      post (ep_close (endpoint_handle ep)) (build_param self) ∷ [],
      done,
      b',
      if done then ep else record ep { close_request_ = some request },
    )

-- `endpoint::close` behind its `co_await`, whose result is `awaited`.
unfoldable pub close_after : Result (Unit {0}) → Endpoint → Result (Unit {0}) × Endpoint
close_after (ok done) ep = (ok tt, record ep { ep_ = 0 })
close_after (err e) ep = (err e, ep)

-- Where `close` stands by the progress of its `co_await`.
abbrev pub settle : Progress → Endpoint → Progress × Endpoint
settle p ep = (p, elim p.phase [ suspended q ↦ ep | finished r ↦ (close_after r ep).1 ])

-- `endpoint::close`, from its call up to where it stands after UCX reported `reports`.
unfoldable pub close :
    StatusPtrs
    → (self : ℕ) → Endpoint
    → (coroutine request : ℕ) → (reports : List (ℕ × Status)) → Progress × Endpoint
unfolding close_await_ready close_after
close ucx self ep coroutine request reports =
    let (l, done, b, ep') = close_await_ready ucx self ep base request in
    settle (completes (co_await (l, done, b) coroutine request) reports) ep'

-- `endpoint::close_cb`
unfoldable pub close_cb : (request : ℕ) → List Event
close_cb request = ucp_request_free request ∷ []

-- The parameters of the destructor's close: a callback and no user data.
abbrev pub destructor_param : RequestParam
destructor_param = record {
  callback = true;
  user_data = none;
  multi_send = false;
  datatype = none;
  reply_buffer = none;
  recv_info = false;
}

-- `endpoint::~endpoint`. The test of `close_request_` is made only if `ep_` is not null; `garbage` is
-- what it reads where it was never set.
unfoldable pub endpoint_destroy : (garbage : ℕ) → Endpoint → List Event
endpoint_destroy garbage ep = if ep.ep_ == 0 then [] else elim ep.close_request_ [
  | some r ↦ if r == 0 then post (ep_close ep.ep_) destructor_param ∷ [] else []
  | none ↦ undefined ∷ (if garbage == 0 then post (ep_close ep.ep_) destructor_param ∷ [] else [])
]
