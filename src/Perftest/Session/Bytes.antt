-- ===== src/Perftest/Session/Bytes.antt =====
-- examples/perftest.cc: the receivers for streams count as those for tagged messages do, in bytes, where
-- each receive gives a whole message.
use ucxpp.Base.{
  ℕ, ◌+◌, ◌*◌, ◌%◌, ◌^◌, ◌<◌, ◌≤◌, ◌≡◌, refl, some, ltb, ltb→lt, ltb→le, get_elem?, Bool-cases,
  Option-cases, inl, inr, arith,
}
use native.Mathlib.Nat.{mul-le-mul_left, mul-le-mul_right, mul-lt-mul_of_pos_left}
use ucxpp.Perftest.{unstarted, waiting, returned, Counters, loop_test, task_step}
use ucxpp.Perftest.Counter.{total-set, room, Inv, raised}

abbrev pub in_bytes : (M : ℕ) → Counters → Counters
in_bytes M c = record c { iterations = M * c.iterations }

module _ (M : ℕ) (some_bytes : 0 < M) where
  pub ltb-scaled : (k n : ℕ) → ltb (M * k) (M * n) ≡ ltb k n
  ltb-scaled k n = elim (Bool-cases (ltb k n)) [
    | inl e ↦ ground (arith, mul-lt-mul_of_pos_left (ltb→lt k n e) some_bytes)
    | inr e ↦ ground (arith, mul-le-mul_left M (ltb→le k n e))
  ]

  loop_test-in_bytes :
      (bound i : ℕ) (c : Counters)
      → loop_test (M * bound) i (in_bytes M c) ≡ in_bytes M (loop_test bound i c)
  unfolding loop_test
  loop_test-in_bytes bound i c =
      rw (ltb-scaled c.iterations bound)
        (elim (Bool-cases (ltb c.iterations bound)) [ inl e ↦ rw e refl | inr e ↦ rw e refl ])

  -- A step in which the receive, if the task waits for one, gives a whole message.
  pub task_step-in_bytes :
      (bound limit i n : ℕ) (c : Counters)
      → M * (bound + limit) < 2 ^ 64
      → (get_elem? c.tasks i ≡ some waiting → n ≡ M)
      → Inv bound 1 limit c
      → task_step (M * bound % 2 ^ 64) i n (in_bytes M c) ≡ in_bytes M (task_step bound i 1 c)
  unfolding task_step
  task_step-in_bytes bound limit i n c small all v =
      let fits : bound + limit < 2 ^ 64 =
        omega (arith, small, mul-le-mul_right (bound + limit) some_bytes) in
      let no_wrap : M * bound % 2 ^ 64 ≡ M * bound = omega (arith, small) in
      rw no_wrap (elim (Option-cases (get_elem? c.tasks i)) [
        | inl e ↦ rw (e, task_step) refl
        | inr (unstarted, e) ↦ rw (e, task_step) (loop_test-in_bytes bound i c)
        | inr (waiting, e) ↦
            rw (e, task_step, raised bound 1 limit i 1 c e (omega arith) fits v, summed e)
              (loop_test-in_bytes bound i (record c { iterations = c.iterations + 1 }))
        | inr (returned, e) ↦ rw (e, task_step) refl
      ])
    where
      most : get_elem? c.tasks i ≡ some waiting → c.iterations + 1 ≤ bound + limit
      most e = omega (arith, total-set (room 1) c.tasks i returned e, v.counted, v.shared)

      summed :
          get_elem? c.tasks i ≡ some waiting
          → (M * c.iterations + n) % 2 ^ 64 ≡ M * (c.iterations + 1)
      summed e = omega (arith, all e, small, mul-le-mul_left M (most e))
