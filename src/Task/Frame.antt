-- ===== src/Task/Frame.antt =====
-- The coroutine frame of include/ucxpp/task.h, and who is left to destroy it.
use ucxpp.Base.{
  ℕ, zero, suc, ◌+◌, ◌≤◌, ◌≡◌, refl, ap, List, [], ◌∷◌, ◌++◌, true, false, some, arith,
  if◌then◌else◌, get_elem?, set,
}
use ucxpp.Errors.{Result}
use ucxpp.Task.Cases.{step_cases}
use ucxpp.Task.{
  Task, State, Action, finishes, awaits, detaches, destroys, moves, start, finish, task_move, act,
  position, step, run, remove_at,
}

-- A task that will see to the frame.
abbrev pub weight : Task → ℕ
weight t = if t.detached_ then 0 else 1

abbrev pub attached : List Task → ℕ
attached [] = 0
attached (t ∷ ts) = weight t + attached ts

pub attached-append : (xs ys : List Task) → attached (xs ++ ys) ≡ attached xs + attached ys
attached-append [] ys = omega arith
attached-append (x ∷ xs) ys = omega (arith, attached-append xs ys)

pub attached-set :
    (xs : List Task) (i : ℕ) (v : Task) {t : Task}
    → get_elem? xs i ≡ some t
    → attached (set xs i v) + weight t ≡ attached xs + weight v
attached-set [] i v e = cc
attached-set (x ∷ xs) zero v {t} e = let p : x ≡ t = cc in omega (arith, ap weight p)
attached-set (x ∷ xs) (suc i) v e = omega (arith, attached-set xs i v e)

pub attached-remove_at :
    (xs : List Task) (i : ℕ) {t : Task}
    → get_elem? xs i ≡ some t
    → attached (remove_at xs i) + weight t ≡ attached xs
attached-remove_at [] i e = cc
attached-remove_at (x ∷ xs) zero {t} e = let p : x ≡ t = cc in omega (arith, ap weight p)
attached-remove_at (x ∷ xs) (suc i) e = omega (arith, attached-remove_at xs i e)

-- The frame is seen to by a task, or was handed to `final_suspend`, or was destroyed: one at most.
pub record Inv (s : State) : Type 0 where
  pub single : attached s.tasks + s.destroyed ≤ 1
  pub handed : (if s.release_detached_ then attached s.tasks else 0) ≡ 0
  pub alive : (if s.done then 0 else s.destroyed) ≡ 0

pub start-Inv : Inv start
unfolding start
start-Inv = record { single = omega arith; handed = refl; alive = refl }

pub finish-Inv : (r : Result ℕ) (s : State) → s.done ≡ false → Inv s → Inv (finish r s)
unfolding finish
finish-Inv r s h v = ground arith

pub act-Inv :
    (a : Action) (t : Task) (s : State)
    → get_elem? s.tasks (position a) ≡ some t
    → Inv s
    → Inv (act a t s)
unfolding act
act-Inv (finishes r) t s e v = v
act-Inv (awaits i c) t s e v = ground arith
act-Inv (detaches i) t s e v =
    ground (arith, attached-set s.tasks i (record t { detached_ = true }) e)
act-Inv (destroys i) t s e v = ground (arith, attached-remove_at s.tasks i e)
act-Inv (moves i) t s e v = ground (
  arith,
  attached-set s.tasks i (task_move t).1 e,
  attached-append (set s.tasks i (task_move t).1) ((task_move t).0 ∷ []),
)

pub step-Inv : (s : State) (a : Action) → Inv s → Inv (step s a)
step-Inv s a v = step_cases Inv s a v (λ r d. finish-Inv r s d v) (λ t e. act-Inv a t s e v)

run-Inv : (s : State) (actions : List Action) → Inv s → Inv (run s actions)
unfolding run
run-Inv s [] v = v
run-Inv s (a ∷ actions) v = run-Inv (step s a) actions (step-Inv s a v)

-- Whatever a program does with its tasks, by `co_await`, `detach`, moves and destructors, and whenever
-- the coroutine ends: at most one task is not detached, the frame is destroyed once at most, never
-- while such a task is left and never before the coroutine has ended; and once the frame is left to
-- `final_suspend` no such task is there.
pub run-start-Inv : (actions : List Action) → Inv (run start actions)
run-start-Inv actions = run-Inv start actions start-Inv
