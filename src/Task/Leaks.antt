-- ===== src/Task/Leaks.antt =====
-- When the coroutine frame of include/ucxpp/task.h is given back.
use ucxpp.Base.{
  ℕ, ◌+◌, ◌≡◌, refl, List, [], ◌∷◌, true, false, none, some, arith, if◌then◌else◌, get_elem?, set,
  ◌⊎◌,
}
use ucxpp.Errors.{Result}
use ucxpp.Task.Cases.{step_cases}
use ucxpp.Task.{
  Task, State, Action, finishes, awaits, detaches, destroys, moves, start, finish, task_move, act,
  program_step, position, step, run,
}
use ucxpp.Task.Frame.{attached, attached-append, attached-set, attached-remove_at, Inv}

-- `release_detached_` still stands for a destruction to come.
abbrev pub handed_over : State → ℕ
handed_over s = if s.done then 0 else if s.release_detached_ then 1 else 0

-- Somebody will see to the frame, or has done so: exactly one.
abbrev pub IsKept : State → Type 0
IsKept s =
    (attached s.tasks + s.destroyed + handed_over s ≡ 1)
    × ((s.done ≡ false) → (s.release_detached_ ≡ true) → s.continuation_ ≡ none)

-- The uses of a task that do not leak the frame.
abbrev pub IsCareful : State → Action → Type 0
IsCareful s (finishes r) = Unit
IsCareful s (awaits i c) = (s.done ≡ true) ⊎ (s.release_detached_ ≡ false)
IsCareful s (detaches i) = (s.done ≡ false) × (s.continuation_ ≡ none)
IsCareful s (destroys i) = (s.done ≡ true) ⊎ (s.continuation_ ≡ none)
IsCareful s (moves i) = Unit

abbrev pub AreCareful : State → List Action → Type 0
AreCareful s [] = Unit
AreCareful s (a ∷ actions) = IsCareful s a × AreCareful (step s a) actions

finish-IsKept : (r : Result ℕ) (s : State) → s.done ≡ false → IsKept s → IsKept (finish r s)
unfolding finish
finish-IsKept r s d k = ground arith

act-IsKept :
    (a : Action) (t : Task) (s : State)
    → get_elem? s.tasks (position a) ≡ some t
    → IsCareful s a
    → IsKept s
    → IsKept (act a t s)
unfolding act
act-IsKept (finishes r) t s e c k = k
act-IsKept (awaits i c) t s e careful k = ground arith
act-IsKept (detaches i) t s e careful k =
    ground (arith, attached-set s.tasks i (record t { detached_ = true }) e)
act-IsKept (destroys i) t s e careful k = ground (arith, attached-remove_at s.tasks i e)
act-IsKept (moves i) t s e careful k = ground (
  arith,
  attached-set s.tasks i (task_move t).1 e,
  attached-append (set s.tasks i (task_move t).1) ((task_move t).0 ∷ []),
)

step-IsKept : (s : State) (a : Action) → IsCareful s a → IsKept s → IsKept (step s a)
step-IsKept s a c k =
    step_cases IsKept s a k (λ r d. finish-IsKept r s d k) (λ t e. act-IsKept a t s e c k)

run-IsKept :
    (s : State) (actions : List Action) → AreCareful s actions → IsKept s → IsKept (run s actions)
unfolding run
run-IsKept s [] c k = k
run-IsKept s (a ∷ actions) c k = run-IsKept (step s a) actions c.1 (step-IsKept s a c.0 k)

-- If no task is detached after the coroutine has ended, none is awaited after the frame was left to
-- `final_suspend`, and none detached or destroyed after it was awaited, before the coroutine has
-- ended: then the frame was destroyed exactly once as soon as the coroutine has ended and no task is
-- left that is not detached.
pub run-destroyed :
    (actions : List Action)
    → AreCareful start actions
    → (run start actions).done ≡ true
    → attached (run start actions).tasks ≡ 0
    → (run start actions).destroyed ≡ 1
unfolding start
run-destroyed actions c d none_left = ground (arith, run-IsKept start actions c (refl, λ h e. refl))

-- Nobody will destroy the frame any more.
abbrev pub IsLeaked : State → Type 0
IsLeaked s = (s.done ≡ true) × (attached s.tasks ≡ 0) × (s.destroyed ≡ 0)

act-IsLeaked :
    (a : Action) (t : Task) (s : State)
    → get_elem? s.tasks (position a) ≡ some t
    → IsLeaked s
    → IsLeaked (act a t s)
unfolding act
act-IsLeaked (finishes r) t s e k = k
act-IsLeaked (awaits i c) t s e k = ground arith
act-IsLeaked (detaches i) t s e k =
    ground (arith, attached-set s.tasks i (record t { detached_ = true }) e)
act-IsLeaked (destroys i) t s e k = ground (arith, attached-remove_at s.tasks i e)
act-IsLeaked (moves i) t s e k = ground (
  arith,
  attached-set s.tasks i (task_move t).1 e,
  attached-append (set s.tasks i (task_move t).1) ((task_move t).0 ∷ []),
)

run-IsLeaked : (s : State) (actions : List Action) → IsLeaked s → IsLeaked (run s actions)
unfolding run
run-IsLeaked s [] k = k
run-IsLeaked s (a ∷ actions) k =
    run-IsLeaked (step s a) actions
      (step_cases IsLeaked s a k (λ r d. absurd (clash r d)) (λ t e. act-IsLeaked a t s e k))
  where
    clash : Result ℕ → s.done ≡ false → ⊥
    clash r d = cc

-- At a state that satisfies the invariant, where the coroutine has ended and no destructor waits, a
-- task that is detached by `detach` leaks the frame: whatever happens later, it is never destroyed.
pub detach-IsLeaked :
    (s : State) (i : ℕ) (t : Task) (actions : List Action)
    → Inv s
    → s.done ≡ true
    → s.blocked ≡ false
    → get_elem? s.tasks i ≡ some t
    → t.detached_ ≡ false
    → IsLeaked (run (step s (detaches i)) actions)
unfolding step program_step
detach-IsLeaked s i t actions v d b e n =
    run-IsLeaked (step s (detaches i)) actions
      (ground (arith, attached-set s.tasks i (record t { detached_ = true }) e))
