-- ===== src/WorkerEpoll/Rounds.antt =====
-- The callback of examples/worker_epoll.cc run to its end, for any number of rounds.
use ucxpp.Base.{ℕ, ◌≡◌, refl, List, [], ◌∷◌, ◌++◌, true, false, ltb, ◌==◌, if◌then◌else◌}
use ucxpp.Errors.{
  Status, ucs_ok, ucs_inprogress, ucs_err_busy, ucs_err, succeeded, check_ucs_status,
}
use ucxpp.Ucx.{Event, ucp_worker_progress, ucp_worker_arm}
use ucxpp.Worker.{Worker}
use ucxpp.WorkerEpoll.{progress_loop, arm_loop, left, wait_readable, unregister, readable_callback}

-- Calls of `progress` that found something.
abbrev pub AreBusy : List ℕ → Type 0
AreBusy [] = Unit
AreBusy (count ∷ counts) = ((count == 0) ≡ false) × AreBusy counts

abbrev pub AllBusy : List (List ℕ) → Type 0
AllBusy [] = Unit
AllBusy (round ∷ rounds) = AreBusy round × AllBusy rounds

-- What UCX answers: in each round some busy calls and an idle one, then UCS_ERR_BUSY for all rounds
-- but the last.
abbrev pub counts_of : (rounds : List (List ℕ)) → (last : List ℕ) → List ℕ
counts_of [] last = last ++ 0 ∷ []
counts_of (round ∷ rounds) last = round ++ 0 ∷ counts_of rounds last

abbrev pub statuses_of : (rounds : List (List ℕ)) → Status → List Status
statuses_of [] status = status ∷ []
statuses_of (round ∷ rounds) status = ucs_err_busy ∷ statuses_of rounds status

-- The native calls of a round, and of all.
abbrev pub round_calls : Worker → List ℕ → List Event
round_calls w [] = ucp_worker_progress w.worker_ ∷ []
round_calls w (count ∷ counts) = ucp_worker_progress w.worker_ ∷ round_calls w counts

abbrev pub all_calls : Worker → (rounds : List (List ℕ)) → (last : List ℕ) → List Event
all_calls w [] last = round_calls w last ++ ucp_worker_arm w.worker_ ∷ []
all_calls w (round ∷ rounds) last =
    round_calls w round ++ ucp_worker_arm w.worker_ ∷ all_calls w rounds last

progress_loop-round :
    (w : Worker) (round rest : List ℕ)
    → AreBusy round
    → progress_loop w (round ++ 0 ∷ rest) ≡ (round_calls w round, true, rest)
unfolding progress_loop
progress_loop-round w [] rest h = refl
progress_loop-round w (count ∷ round) rest h =
    rw (h.0, progress_loop) (rw (progress_loop-round w round rest h.1) refl)

arm_loop-rounds :
    (w : Worker) (rounds : List (List ℕ)) (last : List ℕ) (status : Status)
    → AllBusy rounds
    → AreBusy last
    → succeeded status ≡ true
    → arm_loop w (counts_of rounds last) (statuses_of rounds status)
      ≡ (all_calls w rounds last, left)
unfolding arm_loop check_ucs_status
arm_loop-rounds w [] last ucs_ok h k s = rw (progress_loop-round w last [] k) refl
arm_loop-rounds w [] last ucs_inprogress h k s = rw (progress_loop-round w last [] k) refl
arm_loop-rounds w [] last ucs_err_busy h k s = cc
arm_loop-rounds w [] last (ucs_err n) h k s = cc
arm_loop-rounds w (round ∷ rounds) last status h k s =
    rw (progress_loop-round w round (counts_of rounds last) h.0)
      (rw (arm_loop-rounds w rounds last status h.1 k s) refl)

-- If UCX answers in some rounds with busy calls of `progress`, an idle one and UCS_ERR_BUSY for `arm`,
-- and in one more round with a status for `arm` that counts as success, then the callback makes
-- exactly these calls in this order and comes out of its loop: it waits for the descriptor again if
-- the worker has more than two owners, and else takes the channel out of the event loop.
pub readable_callback-rounds :
    (w : Worker) (rounds : List (List ℕ)) (last : List ℕ) (status : Status) (use_count : ℕ)
    → AllBusy rounds
    → AreBusy last
    → succeeded status ≡ true
    → readable_callback w (counts_of rounds last) (statuses_of rounds status) use_count
      ≡ (all_calls w rounds last, if ltb 2 use_count then wait_readable else unregister)
unfolding readable_callback
readable_callback-rounds w rounds last status use_count h k s =
    rw (arm_loop-rounds w rounds last status h k s) refl
