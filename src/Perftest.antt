-- ===== src/Perftest.antt =====
-- examples/perftest.cc: the coroutines `sender` and `receiver`, which share one counter. A coroutine
-- runs until its next `co_await`, so a run is a sequence of steps of single coroutines. Operations that
-- fail and the native memory are left out.
pub mod Counter
pub mod Ending
pub mod Options
pub mod Printing
pub mod LastOption
pub mod Contexts
pub mod Session
pub mod Main
pub mod Report
pub mod Affinity
use ucxpp.Base.{
  ℕ, zero, suc, ◌+◌, ◌*◌, ◌%◌, ◌^◌, List, [], ◌∷◌, Option, none, some, ltb, if◌then◌else◌,
  get_elem?, set,
}

-- Where a coroutine stands: not called yet, at the `co_await` of its loop, or returned.
pub data Phase : Type 0 where
  unstarted waiting returned : Phase

-- `g_counter`, of the type `size_t` with 8 bytes, and the tasks in the order of their creation.
pub record Counters : Type 0 where
  pub iterations : ℕ
  pub tasks : List Phase

-- The tasks of `client` or `server` before the first of them runs, with the counter reset.
abbrev pub unstarted_tasks : ℕ → List Phase
unstarted_tasks zero = []
unstarted_tasks (suc n) = unstarted ∷ unstarted_tasks n

unfoldable pub tasks_new : (concurrency : ℕ) → Counters
tasks_new concurrency = record { iterations = 0; tasks = unstarted_tasks concurrency }

-- The test of the loop: the coroutine begins an operation, or returns.
unfoldable pub loop_test : (bound i : ℕ) → Counters → Counters
loop_test bound i s =
    if ltb s.iterations bound
    then record s { tasks = set s.tasks i waiting }
    else record s { tasks = set s.tasks i returned }

-- The coroutine at `i` is called, or its operation ends, upon which it adds `n` to the counter.
unfoldable pub task_step : (bound i n : ℕ) → Counters → Counters
unfolding loop_test
task_step bound i n s = elim (get_elem? s.tasks i) [
  | none ↦ s
  | some p ↦ elim p [
    | unstarted ↦ loop_test bound i s
    | waiting ↦ loop_test bound i (record s { iterations = (s.iterations + n) % 2 ^ 64 })
    | returned ↦ s
  ]
]

-- `sender`, and `receiver` for tagged messages: each operation counts one.
unfoldable pub message_step : (total_iterations i : ℕ) → Counters → Counters
unfolding task_step
message_step total_iterations i s = task_step total_iterations i 1 s

-- `receiver` for streams: each operation counts the bytes received.
unfoldable pub stream_step : (message_size total_iterations i received : ℕ) → Counters → Counters
unfolding task_step
stream_step message_size total_iterations i received s =
    task_step (message_size * total_iterations % 2 ^ 64) i received s

unfoldable pub message_run : (total_iterations : ℕ) → Counters → List ℕ → Counters
unfolding message_step
message_run total_iterations s [] = s
message_run total_iterations s (i ∷ is') =
    message_run total_iterations (message_step total_iterations i s) is'

unfoldable pub stream_run : (message_size total_iterations : ℕ) → Counters → List (ℕ × ℕ) → Counters
unfolding stream_step
stream_run message_size total_iterations s [] = s
stream_run message_size total_iterations s ((i, received) ∷ steps) =
    stream_run message_size total_iterations
      (stream_step message_size total_iterations i received s) steps
