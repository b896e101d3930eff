-- ===== src/Tests/Counters.antt =====
-- examples/perftest.cc on concrete schedules.
use ucxpp.Base.{ℕ, ◌≤◌, ◌≡◌, refl, List, [], ◌∷◌, length, arith}
use ucxpp.Perftest.{tasks_new, message_run, message_step}
use ucxpp.Perftest.Counter.{message_run-bounds}
use ucxpp.Perftest.Ending.{message_run-length}

-- Two tasks that are both at their operation when the counter reaches its bound of 2.
abbrev schedule : List ℕ
schedule = 0 ∷ 1 ∷ 0 ∷ 1 ∷ 0 ∷ []

counted_three : (message_run 2 (tasks_new 2) schedule).iterations ≡ 3
unfolding message_run tasks_new
counted_three = refl

message_run-bounds_example :
    (2 ≤ (message_run 2 (tasks_new 2) schedule).iterations)
    × ((message_run 2 (tasks_new 2) schedule).iterations ≤ 3)
unfolding message_run tasks_new
message_run-bounds_example = message_run-bounds 2 2 schedule (omega arith) (omega arith) refl

message_run-length_example : length schedule ≤ 5
unfolding message_step tasks_new
message_run-length_example =
    message_run-length 2 2 schedule (omega arith) (refl, (refl, (refl, (refl, (refl, tt)))))
