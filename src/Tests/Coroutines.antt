-- ===== src/Tests/Coroutines.antt =====
-- include/ucxpp/awaitable.h and include/ucxpp/task.h on concrete runs.
use ucxpp.Base.{ℕ, ◌≡◌, refl, List, [], ◌∷◌, ◌++◌, true, false, inl, inr}
use ucxpp.Errors.{Status, ucs_ok, ucs_err, ok, err, with_status}
use ucxpp.Ucx.{ucp_request_free, resume}
use ucxpp.Awaitable.Send.{Send, send_new, tag_send_awaitable, post_of}
use ucxpp.Awaitable.Protocol.{
  finished, completes, co_await_send, co_await_send-pending, co_await_send-immediate,
}
use ucxpp.Awaitable.TagRecv.{tag_recv_new}
use ucxpp.Awaitable.Cancel.{
  CancelsPending, cancels, reports, tag_await, tag_run, tag_cancel-pending,
}
use ucxpp.Task.{Action, finishes, awaits, detaches, destroys, moves, State, start, run, step}
use ucxpp.Task.Frame.{Inv, run-start-Inv}
use ucxpp.Task.Leaks.{run-destroyed, IsLeaked, detach-IsLeaked}
use ucxpp.Tests.{ucx}

abbrev sender : Send
sender = send_new (tag_send_awaitable 5 64 8 1)

-- The report of another request, of this one, and one more of this one.
abbrev reported : List (ℕ × Status)
reported = (18, ucs_ok) ∷ (17, ucs_err 3) ∷ (17, ucs_ok) ∷ []

co_await_send-pending_example :
    ((completes (co_await_send ucx 40 sender 9 17) reported).events
      ≡ post_of 40 sender.op ∷ [] ++ ucp_request_free 17 ∷ resume 9 ∷ [])
    × ((completes (co_await_send ucx 40 sender 9 17) reported).phase
        ≡ finished (err (with_status "operation failed" (ucs_err 3))))
unfolding send_new
co_await_send-pending_example = co_await_send-pending ucx 40 sender 9 17 reported refl

co_await_send-immediate_example :
    ((completes (co_await_send ucx 40 sender 9 1001) reported).events ≡ post_of 40 sender.op ∷ [])
    × ((completes (co_await_send ucx 40 sender 9 1001) reported).phase
        ≡ finished (err (with_status "operation failed" (ucs_err 1001))))
unfolding send_new
co_await_send-immediate_example = co_await_send-immediate ucx 40 sender 9 1001 reported refl

tag_cancel-pending_example : CancelsPending (
    tag_run
      (tag_await ucx 40 (tag_recv_new 4 64 8 1 255 (0, 0)) 9 17 (0, 0))
      (cancels ∷ reports (ucs_err 3) (1, 8) ∷ []))
tag_cancel-pending_example =
    tag_cancel-pending ucx 40 4 64 8 1 255 (0, 0) 9 17 (0, 0)
      (cancels ∷ reports (ucs_err 3) (1, 8) ∷ [])

run-start-Inv_example : Inv (run start (moves 0 ∷ detaches 1 ∷ finishes (ok 3) ∷ destroys 1 ∷ []))
run-start-Inv_example = run-start-Inv (moves 0 ∷ detaches 1 ∷ finishes (ok 3) ∷ destroys 1 ∷ [])

-- A task that is awaited, and destroyed by the awaiting coroutine after its end.
abbrev awaited : List Action
awaited = awaits 0 9 ∷ finishes (ok 3) ∷ destroys 0 ∷ []

awaited_destroyed : (run start awaited).destroyed ≡ 1
unfolding run start
awaited_destroyed = refl

run-destroyed_example : (run start awaited).destroyed ≡ 1
unfolding run start step
run-destroyed_example = run-destroyed awaited (inr refl, (tt, (inl refl, tt))) refl refl

-- A task that is detached, or whose destructor waits, before its end.
detached_destroyed : (run start (detaches 0 ∷ destroys 0 ∷ finishes (ok 3) ∷ [])).destroyed ≡ 1
unfolding run start
detached_destroyed = refl

waited_destroyed : (run start (destroys 0 ∷ finishes (ok 3) ∷ [])).destroyed ≡ 1
unfolding run start
waited_destroyed = refl

-- A coroutine that has ended, and its only task.
abbrev ended : State
ended = run start (finishes (ok 3) ∷ [])

detach-IsLeaked_example : IsLeaked (run (step ended (detaches 0)) (destroys 0 ∷ []))
unfolding run start step
detach-IsLeaked_example =
    detach-IsLeaked ended 0 (record { has_frame = true; detached_ = false }) (destroys 0 ∷ [])
      (run-start-Inv (finishes (ok 3) ∷ [])) refl refl refl refl
