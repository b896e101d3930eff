-- ===== src/Worker/Wakeup.antt =====
-- The event descriptor of a worker (src/worker.cc), and the context feature that it depends on.
use ucxpp.Base.{
  ◌&&◌, ◌||◌, not, ℕ, ◌≡◌, ◌↔◌, ◌∙◌, List, [], ◌∷◌, Bool, true, false, arith, if◌then◌else◌,
}
use ucxpp.Errors.{Result, Status, ucs_err_busy, succeeded, check_ucs_status, ok, err}
use ucxpp.Ucx.{
  Event, ucp_worker_create, ucp_worker_get_efd, ucp_worker_arm, ucp_worker_destroy, count_if,
}
use ucxpp.Context.{Feature, wakeup, Context, Call, calls, builder, build, context_new}
use ucxpp.Context
use ucxpp.Context.Features.{IsFlags, has, enables, has-builder}
use ucxpp.Worker.{Worker, Answers, worker_new, arm}

abbrev pub is_get_efd : Event → Bool
is_get_efd (ucp_worker_get_efd w) = true
is_get_efd _ = false

abbrev pub is_worker_destroy : Event → Bool
is_worker_destroy (ucp_worker_destroy w) = true
is_worker_destroy _ = false

abbrev pub is_worker_create : Event → Bool
is_worker_create (ucp_worker_create c) = true
is_worker_create _ = false

abbrev pub returns {ℓ} : {A : Type ℓ} → Result A → Bool
returns (ok a) = true
returns (err e) = false

module _ (flag : Feature → ℕ) where
  -- A context that was built keeps the builder's features.
  build-features :
      (b : Context.Builder) (garbage : Bool) (a : Context.Answers) (c : Context)
      → (build b garbage a).1 ≡ ok c
      → c.features_ ≡ b.features_
  unfolding build check_ucs_status
  build-features b garbage a c h = ground arith

  worker_new-get_efd :
      (c : Context) (a : Answers)
      → succeeded a.create.0 ≡ true
      → count_if is_get_efd (worker_new flag c a).0 ≡ (if has flag wakeup c.features_ then 1 else 0)
  unfolding worker_new check_ucs_status
  worker_new-get_efd c a h = ground arith

  -- A worker whose native worker could be created asks for an event descriptor, once, exactly if its
  -- context was built with `enable_wakeup` among the builder's calls; the flags are single bits, no
  -- two the same, as UCX documents.
  pub get_efd-enables :
      (flags : IsFlags flag) (cs : List Call) (garbage : Bool) (a : Context.Answers) (c : Context)
      (w : Answers)
      → (build (calls flag builder cs) garbage a).1 ≡ ok c
      → succeeded w.create.0 ≡ true
      → count_if is_get_efd (worker_new flag c w).0 ≡ (if enables wakeup cs then 1 else 0)
  get_efd-enables flags cs garbage a c w built created =
      worker_new-get_efd c w created
      ∙ rw (
        build-features (calls flag builder cs) garbage a c built,
        has-builder flag flags wakeup cs,
      )

  -- The constructor returns exactly if the native worker was created and, where the context has the
  -- wakeup feature, its descriptor could be had. It calls for one native worker and never
  -- destroys one, so a descriptor that cannot be had leaves the native worker behind.
  pub worker_new-returns :
      (c : Context) (a : Answers)
      → (returns (worker_new flag c a).1
          ≡ (succeeded a.create.0 && (not (has flag wakeup c.features_) || succeeded a.efd.0)))
        × (count_if is_worker_create (worker_new flag c a).0 ≡ 1)
        × (count_if is_worker_destroy (worker_new flag c a).0 ≡ 0)
  unfolding worker_new check_ucs_status
  worker_new-returns c a = ground arith

-- `arm` gives false for UCS_ERR_BUSY, true for UCS_OK and UCS_INPROGRESS, and throws for any other
-- status; it makes one native call each time.
pub arm-cases :
    (w : Worker) (s : Status)
    → ((arm w s).0 ≡ ucp_worker_arm w.worker_ ∷ [])
      × (((arm w s).1 ≡ ok false) ↔ (s ≡ ucs_err_busy))
      × (((arm w s).1 ≡ ok true) ↔ (succeeded s ≡ true))
unfolding arm check_ucs_status
arm-cases w s = ground arith
