-- ===== src/Endpoint/Closing.antt =====
-- How often the native endpoint is closed by src/endpoint.cc: by `close`, by the error handler and by
-- the destructor.
use ucxpp.Base.{
  ℕ, ◌+◌, ◌≡◌, ◌≢◌, refl, ap, ◌∙◌, ◌⊎◌, inl, inr, List, [], ◌∷◌, Option, none, some, Bool, true,
  false, arith, if◌then◌else◌, Bool-cases,
}
use ucxpp.Errors.{Status, ok, err, with_status, check_ucs_status, check_ucs_status-succeeded}
use ucxpp.Ucx.{Event, post, ep_close, ucp_ep_close_nb, count_if, is_undefined}
use ucxpp.Worker.{Worker}
use ucxpp.Address.{RemoteAddress}
use ucxpp.Awaitable.{
  StatusPtrs, base, check_request_ready-ptr, check_request_ready-err, check_request_ready-null,
}
use ucxpp.Awaitable.Protocol.{
  Progress, co_await, Settles, completes-Settles, completes-finished, first_report,
}
use ucxpp.Endpoint.{settle, Endpoint, endpoint_new, error_cb, close_after, close, endpoint_destroy}

abbrev pub is_close : Event → Bool
is_close (post (ep_close e) p) = true
is_close (ucp_ep_close_nb e) = true
is_close _ = false

-- `close_request_` reads as null: it is null, or was never set and the memory happens to hold 0.
abbrev pub ReadsNull : (garbage : ℕ) → Endpoint → Type 0
ReadsNull garbage ep = (ep.close_request_ ≡ some 0) ⊎ ((ep.close_request_ ≡ none) × (garbage ≡ 0))

destroy-null : (garbage : ℕ) (ep : Endpoint) → ep.ep_ ≡ 0 → endpoint_destroy garbage ep ≡ []
unfolding endpoint_destroy
destroy-null garbage ep e = ground arith

destroy-closing :
    (garbage r : ℕ) (ep : Endpoint)
    → ep.close_request_ ≡ some r
    → r ≢ 0
    → endpoint_destroy garbage ep ≡ []
unfolding endpoint_destroy
destroy-closing garbage r ep e nz = ground arith

destroy-open :
    (garbage : ℕ) (ep : Endpoint)
    → ep.ep_ ≢ 0
    → ReadsNull garbage ep
    → count_if is_close (endpoint_destroy garbage ep) ≡ 1
unfolding endpoint_destroy
destroy-open garbage ep nz null = ground arith

settle-close_request_ :
    (p : Progress) (ep : Endpoint) → (settle p ep).1.close_request_ ≡ ep.close_request_
unfolding close_after
settle-close_request_ p ep = ground arith

Settles-is_close :
    (request coroutine : ℕ) (c : Event) (s : Option Status) (p : Progress)
    → Settles request (c ∷ []) coroutine s p
    → count_if is_close p.events ≡ count_if is_close (c ∷ [])
Settles-is_close request coroutine c none p h = rw h.0
Settles-is_close request coroutine c (some s) p h = rw h.0

abbrev pub all_closes : (garbage : ℕ) → Progress × Endpoint → ℕ
all_closes garbage r =
    count_if is_close r.0.events + count_if is_close (endpoint_destroy garbage r.1)

settle-closes :
    (garbage request coroutine : ℕ) (c : Event) (s : Option Status) (p : Progress) (ep : Endpoint)
    → Settles request (c ∷ []) coroutine s p
    → ep.close_request_ ≡ some request
    → request ≢ 0
    → all_closes garbage (settle p ep) ≡ count_if is_close (c ∷ [])
settle-closes garbage request coroutine c s p ep h e nz = omega (
  arith,
  Settles-is_close request coroutine c s p h,
  ap (count_if is_close)
      (destroy-closing garbage request (settle p ep).1 (settle-close_request_ p ep ∙ e) nz),
)

module _ (ucx : StatusPtrs) (self coroutine request : ℕ) (ep : Endpoint) where
  abbrev closed : List (ℕ × Status) → Progress × Endpoint
  closed reports = close ucx self ep coroutine request reports

  closes_pending :
      (reports : List (ℕ × Status)) (garbage : ℕ)
      → ucx.is_ptr request ≡ true
      → all_closes garbage (closed reports) ≡ 1
  unfolding close co_await
  closes_pending reports garbage h = rw (check_request_ready-ptr ucx base request h) (
      settle-closes garbage request coroutine _ (first_report request reports) _ _
        (completes-Settles request _ _ reports) refl not_null)
    where
      not_null : request ≢ 0
      not_null = ground (arith, ucx.null_ptr)

  closes_failed :
      (reports : List (ℕ × Status)) (garbage : ℕ)
      → ep.ep_ ≢ 0
      → ReadsNull garbage ep
      → ucx.is_err request ≡ true
      → all_closes garbage (closed reports) ≡ 2
  unfolding close co_await close_after
  closes_failed reports garbage nz null e = rw (check_request_ready-err ucx base request e) (
      rw completes-finished
        (rw (failed, close_after) (omega (arith, destroy-open garbage ep nz null))))
    where
      failed :
          check_ucs_status (ucx.status request) "operation failed"
          ≡ err (with_status "operation failed" (ucx.status request))
      failed = rw (check_ucs_status-succeeded, ucx.status_err request e) refl

  closes_done :
      (reports : List (ℕ × Status)) (garbage : ℕ)
      → ucx.is_ptr request ≡ false
      → ucx.is_err request ≡ false
      → all_closes garbage (closed reports) ≡ 1
  unfolding close co_await close_after check_ucs_status
  closes_done reports garbage h e =
      rw (check_request_ready-null ucx base request h e)
        (rw completes-finished (ground (arith, destroy-null garbage (record ep { ep_ = 0 }))))

  -- An endpoint that was closed by `close` and then destroyed was closed once in all, whatever UCX
  -- reports of the request in between; only if the native call itself failed at once the destructor
  -- makes a second attempt. The endpoint is not null, and its `close_request_` reads as null before.
  pub close-destroy :
      (reports : List (ℕ × Status)) (garbage : ℕ)
      → ep.ep_ ≢ 0
      → ReadsNull garbage ep
      → all_closes garbage (closed reports) ≡ (if ucx.is_err request then 2 else 1)
  close-destroy reports garbage nz null = elim (Bool-cases (ucx.is_err request)) [
    | inl e ↦ rw e (closes_failed reports garbage nz null e)
    | inr e ↦ rw e (elim (Bool-cases (ucx.is_ptr request)) [
      | inl h ↦ closes_pending reports garbage h
      | inr h ↦ closes_done reports garbage h e
    ])
  ]

  -- `close` itself makes one native call, whatever comes back.
  close-is_close : (reports : List (ℕ × Status)) → count_if is_close (closed reports).0.events ≡ 1
  unfolding close co_await
  close-is_close reports = elim (Bool-cases (ucx.is_ptr request)) [
    | inl h ↦ rw (check_request_ready-ptr ucx base request h) (
        Settles-is_close request coroutine _ (first_report request reports) _
          (completes-Settles request _ _ reports))
    | inr h ↦ elim (Bool-cases (ucx.is_err request)) [
      | inl e ↦ rw (check_request_ready-err ucx base request e) (rw completes-finished refl)
      | inr e ↦ rw (check_request_ready-null ucx base request h e) (rw completes-finished refl)
    ]
  ]

-- After `error_cb` on an endpoint that is not null and whose `close_request_` reads as null, the
-- destructor does not close again: the two make one call together, whichever of its three answers
-- the native close gives.
pub error_cb-destroy :
    (ucx : StatusPtrs) (garbage ep_h request : ℕ) (ep : Endpoint)
    → ep.ep_ ≢ 0
    → ReadsNull garbage ep
    → let (l, ep') = error_cb ucx garbage ep_h request ep in
      count_if is_close l + count_if is_close (endpoint_destroy garbage ep') ≡ 1
unfolding error_cb endpoint_destroy
error_cb-destroy ucx garbage ep_h request ep nz (inl e) = ground (arith, ucx.null_ptr)
error_cb-destroy ucx garbage ep_h request ep nz (inr e) = ground (arith, ucx.null_ptr)

-- `close` does not look at `close_request_`: after an `error_cb` that found it null and whose native
-- close gave a request, the endpoint still holds its handle, and `close` makes a second native close.
pub error_cb-close :
    (ucx : StatusPtrs) (garbage ep_h request self coroutine request' : ℕ) (ep : Endpoint)
    (reports : List (ℕ × Status))
    → ReadsNull garbage ep
    → ucx.is_ptr request ≡ true
    → let (l, ep') = error_cb ucx garbage ep_h request ep in
      (ep'.ep_ ≡ ep.ep_)
      × (count_if is_close l
            + count_if is_close (close ucx self ep' coroutine request' reports).0.events
          ≡ 2)
unfolding error_cb
error_cb-close ucx garbage ep_h request self coroutine request' ep reports null h = (
  ground (arith, ucx.apart request),
  ground (
    arith,
    ucx.apart request,
    close-is_close ucx self coroutine request' (error_cb ucx garbage ep_h request ep).1 reports,
  ),
)

-- The destructor of an endpoint that the constructor returned, with a handle that is not null, has
-- undefined behaviour: it reads `close_request_`, which the constructor never sets.
pub endpoint_new-undefined :
    (self : ℕ) (worker : Worker) (peer : RemoteAddress) (create : Status × ℕ) (garbage : ℕ)
    (ep : Endpoint)
    → (endpoint_new self worker peer create).1 ≡ ok ep
    → ep.ep_ ≢ 0
    → count_if is_undefined (endpoint_destroy garbage ep) ≡ 1
unfolding endpoint_new endpoint_destroy check_ucs_status
endpoint_new-undefined self worker peer create garbage ep e nz = ground arith
