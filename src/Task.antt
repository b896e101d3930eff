-- ===== src/Task.antt =====
-- include/ucxpp/task.h: one coroutine frame, its promise, and the `task` objects that refer to it. The
-- body of the coroutine is left open: `finishes` says when it ends and with what. A frame may be
-- finished by another thread than the one that destroys a task.
pub mod Cases
pub mod Frame
pub mod Leaks
use ucxpp.Base.{
  ℕ, zero, suc, ◌+◌, List, [], ◌∷◌, ◌++◌, Bool, true, false, not, ◌&&◌, Option, none, some, ◌==◌,
  if◌then◌else◌, get_elem?, set,
}
use ucxpp.Errors.{Result, ok, err}
use ucxpp.Ucx.{Event, resume, undefined}

-- A `task`: whether `h_` is the frame's handle or `nullptr`, and `detached_`.
pub record Task : Type 0 where
  pub has_frame : Bool
  pub detached_ : Bool

-- The promise, what `done()` gives, how often the frame was destroyed, whether a destructor waits in
-- `future::get`, the living `task` objects, and the coroutines resumed.
pub record State : Type 0 where
  pub continuation_ : Option ℕ
  pub release_detached_ : Bool
  pub value : Option (Result ℕ)
  pub done : Bool
  pub destroyed : ℕ
  pub blocked : Bool
  pub tasks : List Task
  pub events : List Event

-- `task::task(coroutine_handle_type)`, around the frame of a coroutine that has just started.
unfoldable pub start : State
start = record {
  continuation_ = none;
  release_detached_ = false;
  value = none;
  done = false;
  destroyed = 0;
  blocked = false;
  tasks = record { has_frame = true; detached_ = false } ∷ [];
  events = [];
}

-- `task::task(task &&)`: the new object, and what is left of the other one.
unfoldable pub task_move : Task → Task × Task
task_move other = (
  record { has_frame = other.has_frame; detached_ = other.detached_ },
  record { has_frame = false; detached_ = true },
)

abbrev pub is_err : Result ℕ → Bool
is_err (ok n) = false
is_err (err e) = true

-- The end of the coroutine: `return_value` or `unhandled_exception`, then `final_suspend`, which
-- resumes the continuation or destroys a detached frame. A destructor that waits for the value goes on;
-- an exception that it is given leaves it, which ends the program.
unfoldable pub finish : Result ℕ → State → State
finish r s =
    let escapes = s.blocked && is_err r in
    let ended = record s {
      value = some r;
      done = true;
      blocked = escapes;
      events = if escapes then s.events ++ undefined ∷ [] else s.events;
    } in
    elim s.continuation_ [
      | some c ↦ record ended { events = ended.events ++ resume c ∷ [] }
      | none ↦ if s.release_detached_ then record ended { destroyed = s.destroyed + 1 } else ended
    ]

-- `task_awaiter::await_ready` and `await_suspend`, for the coroutine `c`: it goes on at once if the
-- frame is done.
unfoldable pub await : (c : ℕ) → State → State
await c s =
    if s.done
    then record s { events = s.events ++ resume c ∷ [] }
    else record s { continuation_ = some c }

-- `task::detach`, with its assertion.
unfoldable pub detach : (i : ℕ) → Task → State → State
detach i t s = if t.detached_ then record s { events = s.events ++ undefined ∷ [] } else record s {
  release_detached_ = true;
  tasks = set s.tasks i (record t { detached_ = true });
}

abbrev pub remove_at {ℓ} : {A : Type ℓ} → List A → ℕ → List A
remove_at [] i = []
remove_at (x ∷ xs) zero = xs
remove_at (x ∷ xs) (suc i) = x ∷ remove_at xs i

-- `task::~task`: a frame that is not done is detached, and the destructor waits for its value.
unfoldable pub destroy : (i : ℕ) → Task → State → State
destroy i t s =
    let gone = record s { tasks = remove_at s.tasks i } in
    if t.detached_
    then gone
    else if s.done
    then record gone { destroyed = s.destroyed + 1 }
    else record gone { release_detached_ = true; blocked = true }

-- What may happen: the coroutine ends, and what the program does with the task at a position.
pub data Action : Type 0 where
  finishes : Result ℕ → Action
  awaits : (i c : ℕ) → Action
  detaches destroys moves : (i : ℕ) → Action

-- A program awaits a task that refers to the frame only.
unfoldable pub act : Action → Task → State → State
unfolding await detach destroy task_move
act (finishes r) t s = s
act (awaits i c) t s =
    if t.has_frame then await c s else record s { events = s.events ++ undefined ∷ [] }
act (detaches i) t s = detach i t s
act (destroys i) t s = destroy i t s
act (moves i) t s = record s { tasks = set s.tasks i (task_move t).1 ++ (task_move t).0 ∷ [] }

abbrev pub position : Action → ℕ
position (finishes r) = 0
position (awaits i c) = i
position (detaches i) = i
position (destroys i) = i
position (moves i) = i

-- A program that waits in a destructor does nothing else; a position that holds no task is no action.
unfoldable pub program_step : Action → State → State
unfolding act
program_step a s =
    if s.blocked then s else elim (get_elem? s.tasks (position a)) [ none ↦ s | some t ↦ act a t s ]

unfoldable pub step : State → Action → State
unfolding finish program_step
step s (finishes r) = if s.done then s else finish r s
step s (awaits i c) = program_step (awaits i c) s
step s (detaches i) = program_step (detaches i) s
step s (destroys i) = program_step (destroys i) s
step s (moves i) = program_step (moves i) s

unfoldable pub run : State → List Action → State
unfolding step
run s [] = s
run s (a ∷ as') = run (step s a) as'
