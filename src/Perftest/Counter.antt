-- ===== src/Perftest/Counter.antt =====
-- How far the shared counter of examples/perftest.cc gets, whatever the order of the steps.
use ucxpp.Base.{
  ℕ, zero, suc, ◌+◌, ◌-◌, ◌*◌, ◌%◌, ◌^◌, ◌≤◌, ◌<◌, ◌≡◌, refl, ap, ◌⊎◌, inl, inr, List, [], Bool,
  true, false, ◌∷◌, some, ltb, ltb→lt, ltb→le, arith, get_elem?, set, Bool-cases, Option-cases,
}
use ucxpp.Perftest.{
  Phase, unstarted, waiting, returned, Counters, unstarted_tasks, tasks_new, loop_test, task_step,
  message_step, stream_step, message_run, stream_run,
}

abbrev pub total : (Phase → ℕ) → List Phase → ℕ
total w [] = 0
total w (p ∷ ps) = w p + total w ps

pub total-set :
    (w : Phase → ℕ) (ps : List Phase) (i : ℕ) (v : Phase) {p : Phase}
    → get_elem? ps i ≡ some p
    → total w (set ps i v) + w p ≡ total w ps + w v
total-set w [] i v e = cc
total-set w (x ∷ ps) zero v {p} e = let q : x ≡ p = cc in omega (arith, ap w q)
total-set w (x ∷ ps) (suc i) v e = omega (arith, total-set w ps i v e)

-- `m` for a task that has returned, and for one that has not.
abbrev pub over : ℕ → Phase → ℕ
over m returned = m
over m _ = 0

abbrev pub room : ℕ → Phase → ℕ
room m returned = 0
room m _ = m

pub record Inv (bound m limit : ℕ) (s : Counters) : Type 0 where
  pub counted : s.iterations ≤ bound - 1 + total (over m) s.tasks
  pub reached : (total (over m) s.tasks ≡ 0) ⊎ (bound ≤ s.iterations)
  pub shared : total (over m) s.tasks + total (room m) s.tasks ≡ limit

-- A task that has not returned.
record IsLive (p : Phase) : Type 0 where
  no_over : (k : ℕ) → over k p ≡ 0
  all_room : (k : ℕ) → room k p ≡ k

unstarted-IsLive : IsLive unstarted
unstarted-IsLive = record { no_over = λ k. refl; all_room = λ k. refl }

waiting-IsLive : IsLive waiting
waiting-IsLive = record { no_over = λ k. refl; all_room = λ k. refl }

-- The test of a coroutine that has not returned, at a counter that it may just have raised.
loop_test-Inv :
    (bound m limit i : ℕ) (s : Counters) (p : Phase)
    → get_elem? s.tasks i ≡ some p
    → IsLive p
    → s.iterations ≤ bound - 1 + total (over m) s.tasks + m
    → (total (over m) s.tasks ≡ 0) ⊎ (bound ≤ s.iterations)
    → total (over m) s.tasks + total (room m) s.tasks ≡ limit
    → Inv bound m limit (loop_test bound i s)
unfolding loop_test
loop_test-Inv bound m limit i s p e live c t h = elim (Bool-cases (ltb s.iterations bound)) [
  | inl more ↦ rw more (record {
    counted = omega (arith, set_over m waiting, live.no_over m, ltb→lt s.iterations bound more);
    reached = elim t [
      | inl u ↦ inl (omega (arith, set_over m waiting, live.no_over m))
      | inr u ↦ inr u
    ];
    shared = omega (arith, set_over m waiting, set_room waiting, live.no_over m, live.all_room m);
  })
  | inr stop ↦ rw stop (record {
    counted = omega (arith, set_over m returned, live.no_over m);
    reached = inr (ltb→le s.iterations bound stop);
    shared = omega (arith, set_over m returned, set_room returned, live.no_over m, live.all_room m);
  })
]
  where
    set_over :
        (k : ℕ) (v : Phase)
        → total (over k) (set s.tasks i v) + over k p ≡ total (over k) s.tasks + over k v
    set_over k v = total-set (over k) s.tasks i v e

    set_room :
        (v : Phase)
        → total (room m) (set s.tasks i v) + room m p ≡ total (room m) s.tasks + room m v
    set_room v = total-set (room m) s.tasks i v e

-- The operation of a waiting task cannot make the counter wrap around.
pub raised :
    (bound m limit i n : ℕ) (s : Counters)
    → get_elem? s.tasks i ≡ some waiting
    → n ≤ m
    → bound + limit < 2 ^ 64
    → Inv bound m limit s
    → (s.iterations + n) % 2 ^ 64 ≡ s.iterations + n
raised bound m limit i n s e le small v =
    omega (arith, total-set (room m) s.tasks i returned e, v.counted, v.shared)

pub task_step-Inv :
    (bound m limit i n : ℕ) (s : Counters)
    → n ≤ m
    → bound + limit < 2 ^ 64
    → Inv bound m limit s
    → Inv bound m limit (task_step bound i n s)
unfolding task_step
task_step-Inv bound m limit i n s le small v = elim (Option-cases (get_elem? s.tasks i)) [
  | inl e ↦ rw (e, task_step) v
  | inr (unstarted, e) ↦
      rw (e, task_step)
        (loop_test-Inv bound m limit i s unstarted e unstarted-IsLive (omega (arith, v.counted))
          v.reached v.shared)
  | inr (waiting, e) ↦
      rw (e, task_step, raised bound m limit i n s e le small v)
        (loop_test-Inv bound m limit i (record s { iterations = s.iterations + n }) waiting e
          waiting-IsLive (omega (arith, v.counted)) (still v.reached) v.shared)
  | inr (returned, e) ↦ rw (e, task_step) v
]
  where
    still :
        (total (over m) s.tasks ≡ 0) ⊎ (bound ≤ s.iterations)
        → (total (over m) s.tasks ≡ 0) ⊎ (bound ≤ s.iterations + n)
    still (inl u) = inl u
    still (inr u) = inr (omega arith)

-- The tasks as `client` and `server` create them.
pub tasks_new-over : (k n : ℕ) → total (over k) (unstarted_tasks n) ≡ 0
tasks_new-over k zero = refl
tasks_new-over k (suc n) = omega (arith, tasks_new-over k n)

tasks_new-room : (m n : ℕ) → total (room m) (unstarted_tasks n) ≡ n * m
tasks_new-room m zero = omega arith
tasks_new-room m (suc n) = omega (arith, tasks_new-room m n)

pub tasks_new-Inv : (bound m n : ℕ) → Inv bound m (n * m) (tasks_new n)
unfolding tasks_new
tasks_new-Inv bound m n = record {
  counted = omega arith;
  reached = inl (tasks_new-over m n);
  shared = omega (arith, tasks_new-over m n, tasks_new-room m n);
}

message_run-Inv :
    (bound limit : ℕ) (s : Counters) (schedule : List ℕ)
    → bound + limit < 2 ^ 64
    → Inv bound 1 limit s
    → Inv bound 1 limit (message_run bound s schedule)
unfolding message_run message_step
message_run-Inv bound limit s [] small v = v
message_run-Inv bound limit s (i ∷ schedule) small v =
    message_run-Inv bound limit (message_step bound i s) schedule small
      (task_step-Inv bound 1 limit i 1 s (omega arith) small v)

-- No operation receives more bytes than the buffer has.
abbrev pub AreFitting : (message_size : ℕ) → List (ℕ × ℕ) → Type 0
AreFitting message_size [] = Unit
AreFitting message_size ((i, received) ∷ steps) =
    (received ≤ message_size) × AreFitting message_size steps

stream_run-Inv :
    (m n limit : ℕ) (s : Counters) (schedule : List (ℕ × ℕ))
    → m * n + limit < 2 ^ 64
    → AreFitting m schedule
    → Inv (m * n) m limit s
    → Inv (m * n) m limit (stream_run m n s schedule)
unfolding stream_run stream_step
stream_run-Inv m n limit s [] small f v = v
stream_run-Inv m n limit s ((i, received) ∷ schedule) small f v =
    stream_run-Inv m n limit (stream_step m n i received s) schedule small f.1
      (rw no_wrap (task_step-Inv (m * n) m limit i received s f.0 small v))
  where
    no_wrap : m * n % 2 ^ 64 ≡ m * n
    no_wrap = omega arith

abbrev pub all_returned : List Phase → Bool
all_returned [] = true
all_returned (returned ∷ ps) = all_returned ps
all_returned (_ ∷ ps) = false

pub all_returned-room : (m : ℕ) (ps : List Phase) → all_returned ps ≡ true → total (room m) ps ≡ 0
all_returned-room m [] h = refl
all_returned-room m (returned ∷ ps) h = omega (arith, all_returned-room m ps h)
all_returned-room m (unstarted ∷ ps) h = cc
all_returned-room m (waiting ∷ ps) h = cc

product_pos : (n m : ℕ) → 0 < n → 0 < m → 0 < n * m
product_pos zero m h k = absurd (omega arith)
product_pos (suc n) m h k = omega arith

pub all_returned-bounds :
    (bound m n : ℕ) (s : Counters)
    → 0 < n
    → 0 < m
    → all_returned s.tasks ≡ true
    → Inv bound m (n * m) s
    → (bound ≤ s.iterations) × (s.iterations ≤ bound - 1 + n * m)
all_returned-bounds bound m n s some_task some_byte h v = (
  elim v.reached [
    | inl none_over ↦ absurd (
        omega (arith, product_pos n m some_task some_byte, v.shared, all_returned-room m s.tasks h))
    | inr reached ↦ reached
  ],
  omega (arith, v.counted, v.shared),
)

-- Whatever the order in which the operations of the tasks end, once all of one task or more that
-- count messages have returned, the counter has reached the number of iterations, and is at most that
-- number less one (but not below zero) plus the number of tasks, if both numbers together fit in 64
-- bits.
pub message_run-bounds :
    (total_iterations concurrency : ℕ) (schedule : List ℕ)
    → total_iterations + concurrency < 2 ^ 64
    → 0 < concurrency
    → all_returned (message_run total_iterations (tasks_new concurrency) schedule).tasks ≡ true
    → let count = (message_run total_iterations (tasks_new concurrency) schedule).iterations in
      (total_iterations ≤ count) × (count ≤ total_iterations - 1 + concurrency)
message_run-bounds total_iterations concurrency schedule small some_task h =
    let (least, most) =
      all_returned-bounds total_iterations 1 concurrency _ some_task (omega arith) h (
        message_run-Inv total_iterations (concurrency * 1) _ schedule (omega arith)
          (tasks_new-Inv total_iterations 1 concurrency)) in
    (least, omega arith)

-- Whatever the order in which the receives of a stream end and the bytes that each gives, once all of
-- one receiver or more have returned, the counter of bytes has reached the size of all messages, and is at most that size less one (but not below zero) plus
-- a message for each receiver, if messages are not empty, no operation receives more than a message
-- has, and the two sizes together fit in 64 bits.
pub stream_run-bounds :
    (message_size total_iterations concurrency : ℕ) (schedule : List (ℕ × ℕ))
    → message_size * total_iterations + concurrency * message_size < 2 ^ 64
    → 0 < concurrency
    → 0 < message_size
    → AreFitting message_size schedule
    → all_returned (stream_run message_size total_iterations (tasks_new concurrency) schedule).tasks
      ≡ true
    → let count =
        (stream_run message_size total_iterations (tasks_new concurrency) schedule).iterations in
      (message_size * total_iterations ≤ count)
      × (count ≤ message_size * total_iterations - 1 + concurrency * message_size)
stream_run-bounds m n c schedule small some_task some_byte fits h =
    all_returned-bounds (m * n) m c _ some_task some_byte h
      (stream_run-Inv m n (c * m) _ schedule small fits (tasks_new-Inv (m * n) m c))
