-- ===== src/Worker.antt =====
-- include/ucxpp/worker.h and src/worker.cc.
pub mod Wakeup
use Prim.Native.Nat.{bit_and}
use ucxpp.Base.{ℕ, zero, suc, List, [], ◌∷◌, Bool, true, false, ◌==◌, if◌then◌else◌}
use ucxpp.Base.Int.{ℤ, pos, negsuc}
use ucxpp.Errors.{Status, ucs_err_busy, ok}
use ucxpp.Ucx.{
  Event, ucp_worker_create, ucp_worker_get_efd, ucp_worker_get_address, ucp_worker_progress,
  ucp_worker_wait, ucp_worker_arm, ucp_worker_fence, ucp_worker_destroy, undefined, Run, emit,
  check, pure, ◌>>=◌, ◌>>◌,
}
use ucxpp.Awaitable.Send.{Send, send_new, worker_flush_awaitable}
use ucxpp.Awaitable.TagRecv.{TagRecv, tag_recv_new}
use ucxpp.Context.{Feature, wakeup, Context, handle, features}

pub record Worker : Type 0 where
  pub ctx_ : Context
  pub worker_ : ℕ
  pub event_fd_ : ℤ

-- What `ucp_worker_create` and `ucp_worker_get_efd` return and store.
pub record Answers : Type 0 where
  pub create : Status × ℕ
  pub efd : Status × ℤ

-- `worker::worker`
unfoldable pub worker_new : (flag : Feature → ℕ) → Context → Answers → Run Worker
worker_new flag ctx a = do
  emit (ucp_worker_create ctx.context_)
  check a.create.0 "failed to create ucp worker"
  if bit_and ctx.features_ (flag wakeup) == 0
      then pure (record { ctx_ = ctx; worker_ = a.create.1; event_fd_ = negsuc 0 })
      else (do
        emit (ucp_worker_get_efd a.create.1)
        check a.efd.0 "failed to get ucp worker event fd"
        pure (record { ctx_ = ctx; worker_ = a.create.1; event_fd_ = a.efd.1 }))

-- `worker::event_fd`, with its assertion.
unfoldable pub event_fd : Worker → Run ℤ
event_fd w = elim w.event_fd_ [
  | pos n ↦ pure (pos n)
  | negsuc zero ↦ emit undefined >> pure (negsuc zero)
  | negsuc (suc n) ↦ pure (negsuc (suc n))
]

-- `worker::handle`
unfoldable pub worker_handle : Worker → ℕ
worker_handle w = w.worker_

-- `worker::context_ptr`
unfoldable pub context_ptr : Worker → Context
context_ptr w = w.ctx_

-- `worker::progress`; `count` is what `ucp_worker_progress` returns.
unfoldable pub progress : Worker → (count : ℕ) → Run Bool
progress w count = do
  emit (ucp_worker_progress w.worker_)
  pure (if count == 0 then false else true)

-- `worker::wait`
unfoldable pub wait : Worker → (waited : Status) → Run (Unit {0})
wait w waited = do emit (ucp_worker_wait w.worker_); check waited "failed to wait worker"

-- `status == UCS_ERR_BUSY`
abbrev pub is_busy : Status → Bool
is_busy ucs_err_busy = true
is_busy _ = false

-- `worker::arm`
unfoldable pub arm : Worker → (status : Status) → Run Bool
arm w status = do
  emit (ucp_worker_arm w.worker_)
  if is_busy status then pure false else (check status "failed to arm worker" >> pure true)

-- `worker::fence`
unfoldable pub fence : Worker → (fenced : Status) → Run (Unit {0})
fence w fenced = do emit (ucp_worker_fence w.worker_); check fenced "failed to fence worker"

-- `worker::tag_recv`; `garbage` is the `recv_info_` that is not set.
unfoldable pub worker_tag_recv :
    Worker → (buffer length tag tag_mask : ℕ) → (garbage : ℕ × ℕ) → TagRecv
unfolding tag_recv_new
worker_tag_recv w buffer length tag tag_mask garbage =
    tag_recv_new w.worker_ buffer length tag tag_mask garbage

-- `worker::flush`
unfoldable pub worker_flush : Worker → Send
unfolding send_new worker_handle
worker_flush w = send_new (worker_flush_awaitable (worker_handle w))

-- `worker::~worker`
unfoldable pub worker_destroy : Worker → List Event
worker_destroy w = ucp_worker_destroy w.worker_ ∷ []
