-- ===== src/Perftest/Session/StreamServer.antt =====
-- The receivers of examples/perftest.cc for streams: how many bytes `server` has taken at the least.
use ucxpp.Base.{
  ℕ, ◌+◌, ◌*◌, ◌%◌, ◌^◌, ◌≤◌, ◌<◌, ◌≡◌, refl, ◌⊎◌, true, if◌then◌else◌, get_elem?, Bool-cases, inl,
  inr, arith,
}
use ucxpp.Perftest.{Counters, tasks_new, task_step, stream_step}
use ucxpp.Perftest.Counter.{Inv, task_step-Inv, tasks_new-Inv, all_returned, all_returned-bounds}
use ucxpp.Perftest.Session.{Stage, warming, measuring, finished, Peer, is_waiting, advance}
use ucxpp.Perftest.Session.Receiver.{task_step-iterations}
use ucxpp.Perftest.Session.Stream.{stream_peer_step}

abbrev pub given : (i bytes : ℕ) → Counters → ℕ
given i bytes c = if is_waiting (get_elem? c.tasks i) then bytes else 0

pub given-given : (i bytes : ℕ) (c : Counters) → given i (given i bytes c) c ≡ given i bytes c
given-given i bytes c = ground arith

module _ (M concurrency W N : ℕ) where
  -- What is known of `server` where `received` bytes were taken, `extra` of them, or more, in the warmup
  -- beyond those of its messages.
  abbrev pub IsServer : (extra received : ℕ) → Stage → Counters → Type 0
  IsServer extra received warming c =
      Inv (M * W) M (concurrency * M) c
      × (c.iterations ≤ received)
      × ((extra ≡ 0) ⊎ (M * W + extra ≤ c.iterations))
  IsServer extra received measuring c =
      Inv (M * N) M (concurrency * M) c × (M * W + extra + c.iterations ≤ received)
  IsServer extra received finished c = M * W + extra + M * N ≤ received

  module _ (some_task : 0 < concurrency) (some_bytes : 0 < M)
      (W_fits : M * W + concurrency * M < 2 ^ 64) (N_fits : M * N + concurrency * M < 2 ^ 64) where
    reached :
        (bound : ℕ) (c : Counters)
        → all_returned c.tasks ≡ true
        → Inv bound M (concurrency * M) c
        → bound ≤ c.iterations
    reached bound c h inv = (all_returned-bounds bound M concurrency c some_task some_bytes h inv).0

    advance-IsServer :
        (extra received : ℕ) (stage : Stage) (c : Counters)
        → IsServer extra received stage c
        → let p : Peer = advance concurrency W N (record { stage = stage; counters = c }) in
          IsServer extra received p.stage p.counters
    unfolding advance tasks_new
    advance-IsServer extra received warming c v = elim (Bool-cases (all_returned c.tasks)) [
      | inl e ↦ rw e (
        tasks_new-Inv (M * N) M concurrency,
        elim v.2 [
          | inl z ↦ omega (arith, reached (M * W) c e v.0, z, v.1)
          | inr h ↦ omega (arith, h, v.1)
        ],
      )
      | inr e ↦ rw e v
    ]
    advance-IsServer extra received measuring c v = elim (Bool-cases (all_returned c.tasks)) [
      | inl e ↦ rw e (omega (arith, reached (M * N) c e v.0, v.1))
      | inr e ↦ rw e v
    ]
    advance-IsServer extra received finished c v = elim (Bool-cases (all_returned c.tasks)) [
      | inl e ↦ rw e v
      | inr e ↦ rw e v
    ]

    -- One step behind which `extra'` bytes are beyond those of the warmup.
    pub stepped :
        (extra extra' received i n : ℕ) (stage : Stage) (c : Counters)
        → n ≤ M
        → given i n c ≡ n
        → (extra' ≡ extra) ⊎ ((stage ≡ warming) × (M * W + extra' ≤ c.iterations + n))
        → IsServer extra received stage c
        → let p' : Peer =
            stream_peer_step M concurrency W N i n (record { stage = stage; counters = c }) in
          IsServer extra' (received + n) p'.stage p'.counters
    unfolding stream_peer_step stream_step
    stepped extra extra' received i n warming c le all x v =
        let no_wrap : M * W % 2 ^ 64 ≡ M * W = omega (arith, W_fits) in
        let inv = task_step-Inv (M * W) M (concurrency * M) i n c le W_fits v.0 in
        let same = task_step-iterations (M * W) M (concurrency * M) i n c le W_fits v.0 in
        rw no_wrap (
          advance-IsServer extra' _ warming (task_step (M * W) i n c) (
            inv,
            omega (arith, same, all, v.1),
            elim x [
              | inl y ↦ elim v.2 [
                | inl z ↦ inl (omega (arith, y, z))
                | inr h ↦ inr (omega (arith, y, h, same))
              ]
              | inr y ↦ inr (omega (arith, y.1, same, all))
            ],
          ))
    stepped extra extra' received i n measuring c le all x v =
        let no_wrap : M * N % 2 ^ 64 ≡ M * N = omega (arith, N_fits) in
        let inv = task_step-Inv (M * N) M (concurrency * M) i n c le N_fits v.0 in
        let same = task_step-iterations (M * N) M (concurrency * M) i n c le N_fits v.0 in
        rw no_wrap (
          advance-IsServer extra' _ measuring (task_step (M * N) i n c)
            (inv, elim x [ inl y ↦ omega (arith, y, same, all, v.1) | inr y ↦ cc y.0 ]))
    stepped extra extra' received i n finished c le all x v =
        advance-IsServer extra' (received + n) finished (task_step (M * N % 2 ^ 64) i n c)
          (elim x [ inl y ↦ omega (arith, y, v) | inr y ↦ cc y.0 ])

    pub tasks_new-IsServer : IsServer 0 0 warming (tasks_new concurrency)
    unfolding tasks_new
    tasks_new-IsServer = (tasks_new-Inv (M * W) M concurrency, omega arith, inl refl)
