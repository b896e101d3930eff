-- ===== src/WorkerEpoll.antt =====
-- examples/worker_epoll.cc: the callback that `register_loop` sets on the event descriptor of a worker.
-- Each `worker::progress` and `worker::arm` is answered by a number or a status, which UCX chooses.
pub mod Draining
pub mod Rounds
pub mod Registering
pub mod Serving
use ucxpp.Base.{ℕ, List, [], ◌∷◌, ◌++◌, Bool, true, false, ltb, if◌then◌else◌}
use ucxpp.Errors.{Status, RuntimeError, Result, ok, err}
use ucxpp.Ucx.{Event}
use ucxpp.Worker.{Worker, progress, arm}

-- Where the callback is: it waits for an answer, threw an exception, or came out of its loop.
pub data Loop : Type 0 where
  running left : Loop
  threw : RuntimeError → Loop

-- `while (worker->progress()) {}`: the calls, and the answers behind the one that ended the loop.
unfoldable pub progress_loop : Worker → (counts : List ℕ) → List Event × Bool × List ℕ
unfolding progress
progress_loop w [] = ([], false, [])
progress_loop w (count ∷ counts) =
    let (l, r) = progress w count in
    let (m, ended, rest) = progress_loop w counts in
    elim r [
      | ok true ↦ (l ++ m, ended, rest)
      | ok false ↦ (l, true, counts)
      | err e ↦ (l, false, counts)
    ]

-- The outer `do … while (!worker->arm())`.
unfoldable pub arm_loop : Worker → (counts : List ℕ) → (statuses : List Status) → List Event × Loop
unfolding progress_loop arm
arm_loop w counts [] = ((progress_loop w counts).0, running)
arm_loop w counts (status ∷ statuses) =
    let (l, ended, rest) = progress_loop w counts in
    let (m, r) = arm w status in
    let (k, again) = arm_loop w rest statuses in
    if ended
    then elim r [
      | ok true ↦ (l ++ m, left)
      | ok false ↦ (l ++ (m ++ k), again)
      | err e ↦ (l ++ m, threw e)
    ]
    else (l, running)

-- What the callback does behind its loop.
pub data Next : Type 0 where
  wait_readable unregister none_yet : Next
  throws : RuntimeError → Next

-- The callback; `use_count` is what the shared pointer to the worker gives.
unfoldable pub readable_callback :
    Worker → (counts : List ℕ) → (statuses : List Status) → (use_count : ℕ) → List Event × Next
unfolding arm_loop
readable_callback w counts statuses use_count =
    let (l, state) = arm_loop w counts statuses in
    (
      l,
      elim state [
        | running ↦ none_yet
        | threw e ↦ throws e
        | left ↦ if ltb 2 use_count then wait_readable else unregister
      ],
    )
