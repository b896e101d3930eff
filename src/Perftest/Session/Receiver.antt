-- ===== src/Perftest/Session/Receiver.antt =====
-- The receivers of examples/perftest.cc where all of the warmup are called before one message has come.
use ucxpp.Base.{
  ℕ, ◌+◌, ◌*◌, ◌^◌, ◌≤◌, ◌<◌, ◌≡◌, refl, ap, true, ◌⊎◌, some, ltb, ltb→le, if◌then◌else◌, get_elem?,
  Bool-cases, Option-cases, inl, inr, arith,
}
use ucxpp.Perftest.{
  Phase, unstarted, waiting, returned, Counters, tasks_new, loop_test, task_step, message_step,
}
use ucxpp.Perftest.Counter.{
  total, total-set, over, Inv, raised, task_step-Inv, tasks_new-Inv, tasks_new-over, all_returned,
  all_returned-room,
}
use ucxpp.Perftest.Session.{
  Stage, warming, measuring, finished, Peer, is_waiting, advance, peer_step,
}

abbrev pub not_called : Phase → ℕ
not_called unstarted = 1
not_called _ = 0

-- No message has come while a receiver is not called; and the more receivers have returned, the more
-- messages were received beyond the number of iterations.
pub record IsWarming (W : ℕ) (c : Counters) : Type 0 where
  pub first : ((c.iterations ≡ 0) × (total (over 1) c.tasks ≡ 0)) ⊎ (total not_called c.tasks ≡ 0)
  pub behind : (total (over 1) c.tasks ≡ 0) ⊎ (W + total (over 1) c.tasks ≤ c.iterations + 1)

abbrev pub taken_at : (i : ℕ) → Counters → ℕ
taken_at i c = if is_waiting (get_elem? c.tasks i) then 1 else 0

-- In the warmup, a message is taken only when all receivers were called.
abbrev pub CalledFirst : (i : ℕ) → Stage → Counters → Type 0
CalledFirst i warming c = is_waiting (get_elem? c.tasks i) ≡ true → total not_called c.tasks ≡ 0
CalledFirst i _ c = Unit

module _ (W : ℕ) (some_warmup : 0 < W) where
  called_step :
      (i : ℕ) (c : Counters)
      → get_elem? c.tasks i ≡ some unstarted
      → IsWarming W c
      → IsWarming W (loop_test W i c) × ((loop_test W i c).iterations ≡ c.iterations)
  unfolding loop_test
  called_step i c e v =
      let idle : (c.iterations ≡ 0) × (total (over 1) c.tasks ≡ 0) = elim v.first [
        | inl h ↦ h
        | inr h ↦ absurd (omega (arith, total-set not_called c.tasks i waiting e, h))
      ] in
      let more : ltb c.iterations W ≡ true = ground (arith, idle.0) in
      rw more (
        record {
          first = inl (idle.0, omega (arith, total-set (over 1) c.tasks i waiting e, idle.1));
          behind = inl (omega (arith, total-set (over 1) c.tasks i waiting e, idle.1));
        },
        refl,
      )

  received_step :
      (i : ℕ) (c : Counters)
      → get_elem? c.tasks i ≡ some waiting
      → total not_called c.tasks ≡ 0
      → IsWarming W c
      → let c' : Counters = loop_test W i (record c { iterations = c.iterations + 1 }) in
        IsWarming W c' × (c'.iterations ≡ c.iterations + 1)
  unfolding loop_test
  received_step i c e all_called v = elim (Bool-cases (ltb (c.iterations + 1) W)) [
    | inl more ↦ rw more (
      record {
        first = inr (omega (arith, total-set not_called c.tasks i waiting e, all_called));
        behind = elim v.behind [
          | inl h ↦ inl (omega (arith, total-set (over 1) c.tasks i waiting e, h))
          | inr h ↦ inr (omega (arith, total-set (over 1) c.tasks i waiting e, h))
        ];
      },
      refl,
    )
    | inr stop ↦ rw stop (
      record {
        first = inr (omega (arith, total-set not_called c.tasks i returned e, all_called));
        behind = inr (elim v.behind [
          | inl h ↦ omega (arith, total-set (over 1) c.tasks i returned e, h, ltb→le _ W stop)
          | inr h ↦ omega (arith, total-set (over 1) c.tasks i returned e, h)
        ]);
      },
      refl,
    )
  ]

  warm_step :
      (limit i : ℕ) (c : Counters)
      → W + limit < 2 ^ 64
      → (is_waiting (get_elem? c.tasks i) ≡ true → total not_called c.tasks ≡ 0)
      → Inv W 1 limit c
      → IsWarming W c
      → IsWarming W (message_step W i c)
        × ((message_step W i c).iterations ≡ c.iterations + taken_at i c)
  unfolding message_step task_step
  warm_step limit i c small ready inv v = elim (Option-cases (get_elem? c.tasks i)) [
    | inl e ↦ rw (e, task_step) (v, omega arith)
    | inr (unstarted, e) ↦
        let (v', same) = called_step i c e v in rw (e, task_step) (v', omega (arith, same))
    | inr (waiting, e) ↦
        let (v', same) = received_step i c e (ready (ap is_waiting e)) v in
        rw (e, task_step, raised W 1 limit i 1 c e (omega arith) small inv) (v', same)
    | inr (returned, e) ↦ rw (e, task_step) (v, omega arith)
  ]

loop_test-iterations :
    (bound i : ℕ) (c : Counters) → (loop_test bound i c).iterations ≡ c.iterations
unfolding loop_test
loop_test-iterations bound i c = ground arith

pub task_step-iterations :
    (bound m limit i n : ℕ) (c : Counters)
    → n ≤ m
    → bound + limit < 2 ^ 64
    → Inv bound m limit c
    → (task_step bound i n c).iterations
      ≡ c.iterations + (if is_waiting (get_elem? c.tasks i) then n else 0)
unfolding task_step
task_step-iterations bound m limit i n c le small inv = elim (Option-cases (get_elem? c.tasks i)) [
  | inl e ↦ rw (e, task_step) (omega arith)
  | inr (unstarted, e) ↦ rw (e, task_step) (omega (arith, loop_test-iterations bound i c))
  | inr (waiting, e) ↦
      rw (e, task_step, raised bound m limit i n c e le small inv)
        (loop_test-iterations bound i (record c { iterations = c.iterations + n }))
  | inr (returned, e) ↦ rw (e, task_step) (omega arith)
]

message_step-iterations :
    (bound limit i : ℕ) (c : Counters)
    → bound + limit < 2 ^ 64
    → Inv bound 1 limit c
    → (message_step bound i c).iterations ≡ c.iterations + taken_at i c
unfolding message_step
message_step-iterations bound limit i c small inv =
    task_step-iterations bound 1 limit i 1 c (omega arith) small inv

-- All of one task or more have returned.
module _ (concurrency : ℕ) (some_task : 0 < concurrency) where
  pub all_returned-over :
      (bound : ℕ) (c : Counters)
      → all_returned c.tasks ≡ true
      → Inv bound 1 (concurrency * 1) c
      → (total (over 1) c.tasks ≡ concurrency) × (bound ≤ c.iterations)
  all_returned-over bound c h inv =
      let returned_all : total (over 1) c.tasks ≡ concurrency =
        omega (arith, inv.shared, all_returned-room 1 c.tasks h) in
      (
        returned_all,
        elim inv.reached [ inl z ↦ absurd (omega (arith, returned_all, z)) | inr r ↦ r ],
      )

  module _ (W N : ℕ) where
    -- What is known of `server` where `received` messages were taken.
    abbrev pub IsServer : (received : ℕ) → Stage → Counters → Type 0
    IsServer received warming c =
        Inv W 1 (concurrency * 1) c × IsWarming W c × (c.iterations ≤ received)
    IsServer received measuring c =
        Inv N 1 (concurrency * 1) c × (W + concurrency + c.iterations ≤ received + 1)
    IsServer received finished c = W + concurrency + N ≤ received + 1

    advance-IsServer :
        (received : ℕ) (stage : Stage) (c : Counters)
        → IsServer received stage c
        → let p : Peer = advance concurrency W N (record { stage = stage; counters = c }) in
          IsServer received p.stage p.counters
    unfolding advance tasks_new
    advance-IsServer received warming c v = elim (Bool-cases (all_returned c.tasks)) [
      | inl e ↦ rw e (
        tasks_new-Inv N 1 concurrency,
        elim v.1.behind [
          | inl z ↦ absurd (omega (arith, all_returned-over W c e v.0, z))
          | inr h ↦ omega (arith, all_returned-over W c e v.0, h, v.2)
        ],
      )
      | inr e ↦ rw e v
    ]
    advance-IsServer received measuring c v = elim (Bool-cases (all_returned c.tasks)) [
      | inl e ↦ rw e (omega (arith, all_returned-over N c e v.0, v.1))
      | inr e ↦ rw e v
    ]
    advance-IsServer received finished c v = elim (Bool-cases (all_returned c.tasks)) [
      | inl e ↦ rw e v
      | inr e ↦ rw e v
    ]

    pub tasks_new-IsServer : IsServer 0 warming (tasks_new concurrency)
    unfolding tasks_new
    tasks_new-IsServer = (
      tasks_new-Inv W 1 concurrency,
      record {
        first = inl (refl, tasks_new-over 1 concurrency);
        behind = inl (tasks_new-over 1 concurrency);
      },
      omega arith,
    )

    abbrev Stepped : (received i : ℕ) → Peer → Type 0
    Stepped received i p =
        let p' : Peer = peer_step concurrency W N i p in
        IsServer (received + taken_at i p.counters) p'.stage p'.counters

    module _ (some_warmup : 0 < W) (W_fits : W + concurrency < 2 ^ 64)
        (N_fits : N + concurrency < 2 ^ 64) where
      stepped :
          (received i : ℕ) (stage : Stage) (c : Counters)
          → CalledFirst i stage c
          → IsServer received stage c
          → Stepped received i (record { stage = stage; counters = c })
      unfolding peer_step
      stepped received i warming c ready v =
          let inv = task_step-Inv W 1 (concurrency * 1) i 1 c (omega arith) (omega arith) v.0 in
          let (warm, same) =
            warm_step W some_warmup (concurrency * 1) i c (omega arith) ready v.0 v.1 in
          advance-IsServer _ warming (message_step W i c) (inv, warm, omega (arith, same, v.2))
      stepped received i measuring c ready v =
          let inv = task_step-Inv N 1 (concurrency * 1) i 1 c (omega arith) (omega arith) v.0 in
          let same = message_step-iterations N (concurrency * 1) i c (omega arith) v.0 in
          advance-IsServer _ measuring (message_step N i c) (inv, omega (arith, same, v.1))
      stepped received i finished c ready v =
          advance-IsServer (received + taken_at i c) finished (message_step N i c) (omega arith)

      pub peer_step-IsServer :
          (received i : ℕ) (p : Peer)
          → CalledFirst i p.stage p.counters
          → IsServer received p.stage p.counters
          → Stepped received i p
      peer_step-IsServer received i p ready v = stepped received i p.stage p.counters ready v
