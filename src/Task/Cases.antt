-- ===== src/Task/Cases.antt =====
-- The cases of a step of include/ucxpp/task.h, as one rule for every property of states.
use ucxpp.Base.{ℕ, ◌≡◌, refl, Bool, true, false, Option, none, some, if◌then◌else◌, get_elem?}
use ucxpp.Errors.{Result}
use ucxpp.Task.{
  Task, State, Action, finishes, awaits, detaches, destroys, moves, finish, act, program_step,
  position, step,
}

module _ (P : State → Type 0) where
  if_cases :
      (b : Bool) (x y : State) → (b ≡ true → P x) → (b ≡ false → P y) → P (if b then x else y)
  if_cases true x y f g = f refl
  if_cases false x y f g = g refl

  get_cases :
      (o : Option Task) (s : State) (k : Task → State)
      → P s
      → ((t : Task) → o ≡ some t → P (k t))
      → P (elim o [ none ↦ s | some t ↦ k t ])
  get_cases none s k f g = f
  get_cases (some t) s k f g = g t refl

  program_step_cases :
      (s : State) (a : Action)
      → P s
      → ((t : Task) → get_elem? s.tasks (position a) ≡ some t → P (act a t s))
      → P (program_step a s)
  unfolding program_step
  program_step_cases s a same acted =
      if_cases s.blocked _ _ (λ b. same)
        (λ b. get_cases (get_elem? s.tasks (position a)) s (λ t. act a t s) same acted)

  pub step_cases :
      (s : State) (a : Action)
      → P s
      → ((r : Result ℕ) → s.done ≡ false → P (finish r s))
      → ((t : Task) → get_elem? s.tasks (position a) ≡ some t → P (act a t s))
      → P (step s a)
  unfolding step
  step_cases s (finishes r) same ended acted = if_cases s.done _ _ (λ d. same) (ended r)
  step_cases s (awaits i c) same ended acted = program_step_cases s (awaits i c) same acted
  step_cases s (detaches i) same ended acted = program_step_cases s (detaches i) same acted
  step_cases s (destroys i) same ended acted = program_step_cases s (destroys i) same acted
  step_cases s (moves i) same ended acted = program_step_cases s (moves i) same acted
