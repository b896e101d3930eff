-- ===== src/Awaitable/Cancel.antt =====
-- `cancel` of the receive awaitables (include/ucxpp/awaitable.h), at any point of a `co_await`: which
-- request it hands to `ucp_request_cancel`.
use ucxpp.Base.{
  ℕ, ◌≡◌, refl, get_elem?, Bool-cases, ◌⊎◌, inl, inr, List, [], ◌∷◌, true, false, Option, none,
  some, arith, ◌==◌, if◌then◌else◌,
}
use ucxpp.Errors.{Status}
use ucxpp.Ucx.{ucp_request_free, ucp_request_cancel, undefined}
use ucxpp.Awaitable.{StatusPtrs, check_request_ready, await_suspend}
use ucxpp.Awaitable.TagRecv.{TagRecv, tag_recv_new}
use ucxpp.Awaitable.TagRecv
use ucxpp.Awaitable.StreamRecv.{StreamRecv, stream_recv_cancellable}
use ucxpp.Awaitable.StreamRecv

-- A tag receive with the request that UCX still holds for it.
pub record TagState : Type 0 where
  pub awaitable : TagRecv
  pub pending : Option ℕ

-- `co_await`: with no request the coroutine goes on, and takes the result, at once.
unfoldable pub tag_await :
    StatusPtrs → (self : ℕ) → TagRecv → (coroutine request : ℕ) → (info : ℕ × ℕ) → TagState
unfolding TagRecv.await_ready TagRecv.await_resume await_suspend
tag_await ucx self a coroutine request info =
    let (_, done, a') = TagRecv.await_ready ucx self a request info in
    if done then record { awaitable = (TagRecv.await_resume a').1; pending = none } else record {
      awaitable = record a' { base_ = (await_suspend a'.base_ coroutine).1 };
      pending = some request;
    }

-- What may happen while it waits: the program cancels, or UCX reports the end of the request, upon
-- which the resumed coroutine takes the result.
pub data TagAction : Type 0 where
  cancels : TagAction
  reports : Status → (info : ℕ × ℕ) → TagAction

unfoldable pub tag_step : TagState → TagAction → TagState
unfolding TagRecv.cancel TagRecv.tag_recv_cb TagRecv.await_resume
tag_step s cancels = record s { awaitable = (TagRecv.cancel s.awaitable).1 }
tag_step s (reports status info) = elim s.pending [
  | none ↦ s
  | some request ↦ record {
    awaitable = (TagRecv.await_resume (TagRecv.tag_recv_cb request status info s.awaitable).1).1;
    pending = none;
  }
]

unfoldable pub tag_run : TagState → List TagAction → TagState
unfolding tag_step
tag_run s [] = s
tag_run s (act ∷ acts) = tag_run (tag_step s act) acts

abbrev Tracks : TagState → Type 0
Tracks s = (s.awaitable.request_ ≡ 0) ⊎ (s.pending ≡ some s.awaitable.request_)

tag_step-Tracks : (s : TagState) (act : TagAction) → Tracks s → Tracks (tag_step s act)
unfolding tag_step
tag_step-Tracks s cancels t = ground arith
tag_step-Tracks s (reports status info) t = ground arith

tag_run-Tracks : (s : TagState) (acts : List TagAction) → Tracks s → Tracks (tag_run s acts)
unfolding tag_run
tag_run-Tracks s [] t = t
tag_run-Tracks s (act ∷ acts) t = tag_run-Tracks (tag_step s act) acts (tag_step-Tracks s act t)

tag_await-Tracks :
    (ucx : StatusPtrs) (self : ℕ) (a : TagRecv) (coroutine request : ℕ) (info : ℕ × ℕ)
    → a.request_ ≡ 0
    → Tracks (tag_await ucx self a coroutine request info)
unfolding tag_await check_request_ready
tag_await-Tracks ucx self a coroutine request info h = ground arith

-- What `cancel` does at a state, if it is right.
abbrev pub CancelsPending : TagState → Type 0
CancelsPending s =
    ((TagRecv.cancel s.awaitable).0 ≡ [])
    ⊎ ((r : ℕ) × (s.pending ≡ some r)
        × ((TagRecv.cancel s.awaitable).0 ≡ ucp_request_cancel s.awaitable.worker_ r ∷ []))

cancel-Tracks : (s : TagState) → Tracks s → CancelsPending s
unfolding TagRecv.cancel
cancel-Tracks s (inl e) = inl (ground arith)
cancel-Tracks s (inr e) = elim (Bool-cases (s.awaitable.request_ == 0)) [
  | inl z ↦ inl (ground arith)
  | inr nz ↦ inr (s.awaitable.request_, e, ground arith)
]

-- Whatever was cancelled and reported before, `cancel` of a tag receive cancels nothing, or the
-- request that UCX still holds for this receive: never one that was freed.
pub tag_cancel-pending :
    (ucx : StatusPtrs) (self worker buffer length tag mask : ℕ) (garbage : ℕ × ℕ)
    (coroutine request : ℕ) (info : ℕ × ℕ) (acts : List TagAction)
    → CancelsPending (
        tag_run
          (tag_await ucx self
            (tag_recv_new worker buffer length tag mask garbage)
            coroutine
            request
            info)
          acts)
unfolding tag_recv_new
tag_cancel-pending ucx self worker buffer length tag mask garbage coroutine request info acts =
    cancel-Tracks _
      (tag_run-Tracks _ acts (tag_await-Tracks ucx self _ coroutine request info refl))

-- A stream receive that can be cancelled does not forget its request: where the native call gave a
-- request, UCX reported it and the callback freed it, `cancel` still hands the freed request to
-- `ucp_request_cancel`. Before `co_await` it reads a member that was never set.
pub stream_cancel-freed :
    (ucx : StatusPtrs) (self ep worker buffer length request received received' : ℕ)
    (status : Status)
    → ucx.is_ptr request ≡ true
    → let a = stream_recv_cancellable ep worker buffer length in
      let (_, _, waiting) = StreamRecv.await_ready ucx self a request received in
      let (freed, resumed) = StreamRecv.stream_recv_cb request status received' waiting in
      let (_, after) = StreamRecv.await_resume resumed in
      ((StreamRecv.cancel a).0 ≡ undefined ∷ [])
      × (get_elem? freed 0 ≡ some (ucp_request_free request))
      × ((StreamRecv.cancel after).0 ≡ ucp_request_cancel worker request ∷ [])
unfolding stream_recv_cancellable check_request_ready StreamRecv.await_ready
    StreamRecv.stream_recv_cb StreamRecv.await_resume StreamRecv.cancel
stream_cancel-freed ucx self ep worker buffer length request received received' status h =
    rw h (rw (not_null) (refl, refl, refl))
  where
    not_null : (request == 0) ≡ false
    not_null = ground (arith, ucx.null_ptr)
