-- ===== src/Awaitable/Protocol.antt =====
-- A `co_await` on an awaitable with a send-like callback, from the native call to the result:
-- `await_ready`, `await_suspend`, then what UCX reports, and `await_resume` (include/ucxpp/awaitable.h).
use ucxpp.Base.{
  ℕ, ◌≡◌, refl, ap, ◌∙◌, List, [], ◌∷◌, ◌++◌, Bool, true, false, Option, none, some, ◌==◌,
  if◌then◌else◌, Bool-cases, ==_iff, inl, inr,
}
use ucxpp.Errors.{
  Status, ucs_ok, Result, ok, err, with_status, succeeded, check_ucs_status,
  check_ucs_status-succeeded,
}
use ucxpp.Ucx.{Event, ucp_request_free, resume}
use ucxpp.Awaitable.{StatusPtrs, Base, check_request_ready, await_suspend}
use ucxpp.Awaitable.Send.{Send, await_ready, send_cb, await_resume, post_of}

-- Where the coroutine stands.
pub data Phase : Type 0 where
  suspended : (request : ℕ) → Phase
  finished : Result (Unit {0}) → Phase

pub record Progress : Type 0 where
  pub events : List Event
  pub phase : Phase
  pub base_ : Base

-- What the language makes of `co_await`, given what `await_ready` did.
unfoldable pub co_await : List Event × Bool × Base → (coroutine request : ℕ) → Progress
unfolding await_suspend await_resume
co_await (l, true, b) coroutine request = record {
  events = l;
  phase = finished (await_resume b);
  base_ = b;
}
co_await (l, false, b) coroutine request =
    let (stay, b') = await_suspend b coroutine in
    record {
      events = l;
      phase = if stay then suspended request else finished (await_resume b');
      base_ = b';
    }

-- UCX reports the end of a request. It calls back for a request that it holds, and once only.
unfoldable pub complete : Progress → ℕ × Status → Progress
unfolding send_cb await_resume
complete p (request, status) = elim p.phase [
  | finished r ↦ p
  | suspended q ↦
      let (l, b) = send_cb request status p.base_ in
      if request == q
      then record { events = p.events ++ l; phase = finished (await_resume b); base_ = b }
      else p
]

unfoldable pub completes : Progress → List (ℕ × Status) → Progress
unfolding complete
completes p [] = p
completes p (c ∷ cs) = completes (complete p c) cs

-- `co_await` on one of the awaitables of Awaitable/Send.antt.
unfoldable pub co_await_send : StatusPtrs → (self : ℕ) → Send → (coroutine request : ℕ) → Progress
unfolding co_await await_ready
co_await_send ucx self a coroutine request =
    let (l, done, a') = await_ready ucx self a request in
    co_await (l, done, a'.base_) coroutine request

-- The first report for a request.
abbrev pub first_report : ℕ → List (ℕ × Status) → Option Status
first_report request [] = none
first_report request ((r, s) ∷ cs) = if r == request then some s else first_report request cs

abbrev pub outcome : Status → Result (Unit {0})
outcome s = if succeeded s then ok tt else err (with_status "operation failed" s)

pub completes-finished :
    (l : List Event) (r : Result (Unit {0})) (b : Base) (cs : List (ℕ × Status))
    → completes (record { events = l; phase = finished r; base_ = b }) cs
      ≡ record { events = l; phase = finished r; base_ = b }
unfolding completes
completes-finished l r b [] = refl
completes-finished l r b (c ∷ cs) = completes-finished l r b cs

-- What is left to happen to a coroutine that waits for a request.
abbrev pub Settles :
    (request : ℕ) → List Event → (coroutine : ℕ) → Option Status → Progress → Type 0
Settles request l coroutine none p = (p.events ≡ l) × (p.phase ≡ suspended request)
Settles request l coroutine (some s) p =
    (p.events ≡ l ++ ucp_request_free request ∷ resume coroutine ∷ [])
    × (p.phase ≡ finished (outcome s))

pub completes-Settles :
    (request : ℕ) (l : List Event) (b : Base) (cs : List (ℕ × Status))
    → Settles request l b.h_
        (first_report request cs)
        (completes (record { events = l; phase = suspended request; base_ = b }) cs)
unfolding completes
completes-Settles request l b [] = (refl, refl)
completes-Settles request l b ((r, s) ∷ cs) = elim (Bool-cases (r == request)) [
  | inl e ↦
      rw (e, completes-finished)
        (
          ap (λ (t : ℕ). l ++ ucp_request_free t ∷ resume b.h_ ∷ []) ((==_iff r request).0 e),
          ap finished (check_ucs_status-succeeded s "operation failed"),
        )
  | inr e ↦ rw e (completes-Settles request l b cs)
]

module _ (ucx : StatusPtrs) (self : ℕ) (a : Send) (coroutine request : ℕ) where
  abbrev awaited : List (ℕ × Status) → Progress
  awaited cs = completes (co_await_send ucx self a coroutine request) cs

  -- Where the native call gives a request, the coroutine stays suspended, and nothing else happens,
  -- until UCX reports that request; on the first such report the request is freed and the coroutine
  -- resumed, once each and in this order, and the result is the reported status, checked. Reports of
  -- other requests, and later ones, change nothing.
  pub co_await_send-pending :
      (cs : List (ℕ × Status))
      → ucx.is_ptr request ≡ true
      → Settles request (post_of self a.op ∷ []) coroutine (first_report request cs) (awaited cs)
  unfolding co_await_send check_request_ready
  co_await_send-pending cs h = rw h (completes-Settles request _ _ cs)

  -- Where the native call gives no request, the coroutine is never suspended or resumed and no
  -- request is freed, whatever UCX reports later; the result is the error that the call gave, or
  -- success.
  pub co_await_send-immediate :
      (cs : List (ℕ × Status))
      → ucx.is_ptr request ≡ false
      → ((awaited cs).events ≡ post_of self a.op ∷ [])
        × ((awaited cs).phase
            ≡ finished (
                if ucx.is_err request
                then err (with_status "operation failed" (ucx.status request))
                else ok tt))
  unfolding co_await_send check_request_ready
  co_await_send-immediate cs h = elim (Bool-cases (ucx.is_err request)) [
    | inl e ↦
        rw (h, e)
          (rw completes-finished
            (refl, ap finished (settled (ucx.status request) ∙ rw (ucx.status_err request e))))
    | inr e ↦ rw (h, e) (rw completes-finished (refl, ap finished (settled ucs_ok)))
  ]
    where
      settled : (s : Status) → check_ucs_status s "operation failed" ≡ outcome s
      settled s = check_ucs_status-succeeded s "operation failed"
