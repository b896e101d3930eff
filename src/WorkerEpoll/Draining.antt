-- ===== src/WorkerEpoll/Draining.antt =====
-- The callback of examples/worker_epoll.cc waits only for a worker that has nothing to do.
use ucxpp.Base.{
  ℕ, ◌≡◌, refl, ap, List, [], ◌∷◌, ◌++◌, append_assoc, Bool, true, false, ltb, ◌==◌, if◌then◌else◌,
  Bool-cases, inl, inr,
}
use ucxpp.Errors.{
  RuntimeError, Status, ucs_ok, ucs_inprogress, ucs_err_busy, ucs_err, check_ucs_status,
}
use ucxpp.Ucx.{Event, ucp_worker_progress, ucp_worker_arm}
use ucxpp.Worker.{Worker}
use ucxpp.WorkerEpoll.{
  Loop, running, left, threw, progress_loop, arm_loop, Next, wait_readable, unregister, none_yet,
  throws, readable_callback,
}

-- Events that end with a call of `progress` and a call of `arm`.
abbrev pub EndsArmed : Worker → List Event → Type 0
EndsArmed w l =
    (before : List Event) × (l
      ≡ before ++ ucp_worker_progress w.worker_ ∷ ucp_worker_arm w.worker_ ∷ [])

-- A loop of `progress` that ended did so with a call that found nothing.
progress_loop-idle :
    (w : Worker) (counts : List ℕ)
    → (progress_loop w counts).1 ≡ true
    → (before : List Event) × ((progress_loop w counts).0
        ≡ before ++ ucp_worker_progress w.worker_ ∷ [])
unfolding progress_loop
progress_loop-idle w [] h = cc
progress_loop-idle w (count ∷ counts) h = elim (Bool-cases (count == 0)) [
  | inl e ↦ rw (e, progress_loop) ([], refl)
  | inr e ↦
      let (before, same) = progress_loop-idle w counts (rw (e, progress_loop) at h) in
      rw (e, progress_loop)
        (ucp_worker_progress w.worker_ ∷ before, ap (ucp_worker_progress w.worker_ ∷◌) same)
]

extend : (w : Worker) (l m : List Event) → EndsArmed w m → EndsArmed w (l ++ m)
extend w l m (before, same) = (l ++ before, rw (same, append_assoc) refl)

-- The last turn of the loop: a call of `progress` that found nothing, then one of `arm`.
armed_turn :
    (w : Worker) (l : List Event)
    → ((before : List Event) × (l ≡ before ++ ucp_worker_progress w.worker_ ∷ []))
    → EndsArmed w (l ++ ucp_worker_arm w.worker_ ∷ [])
armed_turn w l (before, same) = (before, rw (same, append_assoc) refl)

arm_loop-EndsArmed :
    (w : Worker) (counts : List ℕ) (statuses : List Status)
    → (arm_loop w counts statuses).1 ≡ left
    → EndsArmed w (arm_loop w counts statuses).0
unfolding arm_loop check_ucs_status
arm_loop-EndsArmed w counts [] h = cc
arm_loop-EndsArmed w counts (status ∷ statuses) h = elim (Bool-cases (progress_loop w counts).1) [
  | inr e ↦ absurd (waits (rw (e, arm_loop) at h))
  | inl e ↦ turn status e h (arm_loop-EndsArmed w (progress_loop w counts).2 statuses)
]
  where
    waits : running ≡ left → ⊥
    waits h = cc

    throwing : {x : RuntimeError} → threw x ≡ left → ⊥
    throwing h = cc

    turn :
        (s : Status)
        → (progress_loop w counts).1 ≡ true
        → (arm_loop w counts (s ∷ statuses)).1 ≡ left
        → ((arm_loop w (progress_loop w counts).2 statuses).1 ≡ left
            → EndsArmed w (arm_loop w (progress_loop w counts).2 statuses).0)
        → EndsArmed w (arm_loop w counts (s ∷ statuses)).0
    turn ucs_ok e h next = rw (e, arm_loop) (armed_turn w _ (progress_loop-idle w counts e))
    turn ucs_inprogress e h next = rw (e, arm_loop) (armed_turn w _ (progress_loop-idle w counts e))
    turn (ucs_err n) e h next = absurd (throwing (rw (e, arm_loop) at h))
    turn ucs_err_busy e h next =
        let again : (arm_loop w (progress_loop w counts).2 statuses).1 ≡ left =
          rw (e, arm_loop) at h in
        rw (e, arm_loop) (extend w _ _ (extend w (ucp_worker_arm w.worker_ ∷ []) _ (next again)))

-- The callback waits for the descriptor again, or has taken the channel out of the event loop.
abbrev pub is_idle : Next → Bool
is_idle wait_readable = true
is_idle unregister = true
is_idle _ = false

-- Whenever the callback comes to wait for the descriptor again, or takes the channel out of the
-- loop, its last two calls are a `progress` and an `arm`, in this order.
pub readable_callback-EndsArmed :
    (w : Worker) (counts : List ℕ) (statuses : List Status) (use_count : ℕ)
    → is_idle (readable_callback w counts statuses use_count).1 ≡ true
    → EndsArmed w (readable_callback w counts statuses use_count).0
unfolding readable_callback
readable_callback-EndsArmed w counts statuses use_count h =
    arm_loop-EndsArmed w counts statuses (came_out (arm_loop w counts statuses).1 h)
  where
    came_out :
        (state : Loop)
        → is_idle (elim state [
          | running ↦ none_yet
          | threw e ↦ throws e
          | left ↦ if ltb 2 use_count then wait_readable else unregister
        ])
          ≡ true
        → state ≡ left
    came_out running h = cc
    came_out (threw e) h = cc
    came_out left h = refl
