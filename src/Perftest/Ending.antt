-- ===== src/Perftest/Ending.antt =====
-- The coroutines of examples/perftest.cc return after a bounded number of steps.
use ucxpp.Base.{
  ℕ, ◌+◌, ◌-◌, ◌*◌, ◌^◌, ◌≤◌, ◌<◌, ◌≡◌, List, [], ◌∷◌, length, Bool, true, false, some, none, ltb,
  arith, get_elem?, Bool-cases, Option-cases, inl, inr, Option,
}
use ucxpp.Perftest.{
  Phase, unstarted, waiting, returned, Counters, tasks_new, loop_test, task_step, message_step,
}
use ucxpp.Perftest.Counter.{total, total-set, over, room, Inv, task_step-Inv, tasks_new-Inv, raised}

-- A task that was called.
abbrev called : Phase → ℕ
called unstarted = 0
called _ = 1

-- How far the run has come.
abbrev distance : Counters → ℕ
distance s = s.iterations + total called s.tasks

-- Whether a step at `i` is a step of a task that has not returned.
abbrev pub is_live : Option Phase → Bool
is_live none = false
is_live (some returned) = false
is_live (some _) = true

-- A schedule in which every step is one.
abbrev pub IsLiveRun : (total_iterations : ℕ) → Counters → List ℕ → Type 0
IsLiveRun n s [] = Unit
IsLiveRun n s (i ∷ schedule) =
    (is_live (get_elem? s.tasks i) ≡ true) × IsLiveRun n (message_step n i s) schedule

loop_test-distance :
    (bound i : ℕ) (s : Counters) {p : Phase}
    → get_elem? s.tasks i ≡ some p
    → distance (loop_test bound i s) + called p ≡ distance s + 1
unfolding loop_test
loop_test-distance bound i s e = elim (Bool-cases (ltb s.iterations bound)) [
  | inl more ↦ rw more (omega (arith, total-set called s.tasks i waiting e))
  | inr stop ↦ rw stop (omega (arith, total-set called s.tasks i returned e))
]

message_step-distance :
    (bound limit i : ℕ) (s : Counters)
    → is_live (get_elem? s.tasks i) ≡ true
    → bound + limit < 2 ^ 64
    → Inv bound 1 limit s
    → distance (message_step bound i s) ≡ distance s + 1
unfolding message_step task_step
message_step-distance bound limit i s live small v = elim (Option-cases (get_elem? s.tasks i)) [
  | inl e ↦ absurd (false≢true (rw e at live))
  | inr (unstarted, e) ↦ rw (e, task_step) (omega (arith, loop_test-distance bound i s e))
  | inr (waiting, e) ↦
      rw (e, task_step, raised bound 1 limit i 1 s e (omega arith) small v)
        (omega (arith, loop_test-distance bound i (record s { iterations = s.iterations + 1 }) e))
  | inr (returned, e) ↦ absurd (false≢true (rw e at live))
]
  where
    false≢true : false ≡ true → ⊥
    false≢true h = cc

called-le : (ps : List Phase) → total called ps ≤ total (over 1) ps + total (room 1) ps
called-le [] = omega arith
called-le (unstarted ∷ ps) = omega (arith, called-le ps)
called-le (waiting ∷ ps) = omega (arith, called-le ps)
called-le (returned ∷ ps) = omega (arith, called-le ps)

live_run-length :
    (bound limit : ℕ) (s : Counters) (schedule : List ℕ)
    → bound + limit < 2 ^ 64
    → Inv bound 1 limit s
    → IsLiveRun bound s schedule
    → distance s + length schedule ≤ bound - 1 + limit + limit
unfolding message_step
live_run-length bound limit s [] small v live =
    omega (arith, v.counted, v.shared, called-le s.tasks)
live_run-length bound limit s (i ∷ schedule) small v live = omega (
  arith,
  message_step-distance bound limit i s live.0 small v,
  live_run-length bound limit (message_step bound i s) schedule small
      (task_step-Inv bound 1 limit i 1 s (omega arith) small v) live.1,
)

-- A run in which every step is one of a task that counts messages and has not returned takes at most
-- as many steps as there are iterations, less one (but not below zero), and twice as many tasks, if
-- iterations and tasks together fit in 64 bits: so after that many steps all tasks have returned.
pub message_run-length :
    (total_iterations concurrency : ℕ) (schedule : List ℕ)
    → total_iterations + concurrency < 2 ^ 64
    → IsLiveRun total_iterations (tasks_new concurrency) schedule
    → length schedule ≤ total_iterations - 1 + 2 * concurrency
message_run-length n c schedule small live = omega (
  arith,
  live_run-length n (c * 1) (tasks_new c) schedule (omega arith) (tasks_new-Inv n 1 c) live,
)
