-- ===== src/Perftest/Session/Sender.antt =====
-- The senders of examples/perftest.cc where each send ends at once: one sender after the other runs.
use ucxpp.Base.{
  ℕ, zero, suc, ◌+◌, ◌%◌, ◌^◌, ◌≤◌, ◌<◌, ◌≡◌, refl, List, [], ◌∷◌, Bool, true, false, ◌&&◌, some,
  ltb, ltb→lt, if◌then◌else◌, get_elem?, Bool-cases, Option-cases, inl, inr, arith,
}
use ucxpp.Perftest.{
  Phase, unstarted, waiting, returned, Counters, unstarted_tasks, tasks_new, loop_test, task_step,
  message_step,
}
use ucxpp.Perftest.Counter.{total, all_returned}
use ucxpp.Perftest.Ending.{is_live}
use ucxpp.Perftest.Session.Turn.{
  AllBefore, in_hand, IsInTurn, AllUnstarted-IsInTurn, AllUnstarted-in_hand,
  unstarted_tasks-AllUnstarted, get_elem?-set, in_turn,
}
use ucxpp.Perftest.Session.{
  Stage, warming, measuring, finished, Peer, is_waiting, advance, peer_step, begins,
}

-- The messages that were begun.
abbrev pub begun : Counters → ℕ
begun c = c.iterations + total in_hand c.tasks

pub record IsSending (bound : ℕ) (c : Counters) : Type 0 where
  pub turn : IsInTurn c.tasks
  pub within : begun c ≤ bound

-- Whether the task at `i` begins a message between two states.
abbrev begins_at : (i : ℕ) → (before after : Counters) → Bool
begins_at i c c' = is_live (get_elem? c.tasks i) && is_waiting (get_elem? c'.tasks i)

abbrev Sent : (bound i : ℕ) → (before after : Counters) → Type 0
Sent bound i c c' = IsSending bound c' × (begun c' ≡ begun c + (if begins_at i c c' then 1 else 0))

-- The test of a sender whose turn it is, behind the end of its message if it had one.
loop_test-Sent :
    (bound i : ℕ) (p : Phase) (c : Counters) (count : ℕ)
    → count ≡ c.iterations + in_hand p
    → is_live (some p) ≡ true
    → get_elem? c.tasks i ≡ some p
    → AllBefore i c.tasks
    → IsSending bound c
    → Sent bound i c (loop_test bound i (record c { iterations = count }))
unfolding loop_test
loop_test-Sent bound i p c count n live e before s =
    let (here, after) = in_turn c.tasks i p live e before s.turn in
    elim (Bool-cases (ltb count bound)) [
      | inl more ↦
          rw (more, e, live, get_elem?-set c.tasks i waiting e)
            (
              record {
                turn = (after waiting).1;
                within = omega (arith, (after waiting).0, ltb→lt _ bound more);
              },
              omega (arith, (after waiting).0, here),
            )
      | inr stop ↦
          rw (stop, e, live, get_elem?-set c.tasks i returned e)
            (
              record {
                turn = (after returned).1;
                within = omega (arith, (after returned).0, here, s.within);
              },
              omega (arith, (after returned).0, here),
            )
    ]

message_step-Sent :
    (bound i : ℕ) (c : Counters)
    → bound < 2 ^ 64
    → AllBefore i c.tasks
    → IsSending bound c
    → Sent bound i c (message_step bound i c)
unfolding message_step task_step
message_step-Sent bound i c small before s = elim (Option-cases (get_elem? c.tasks i)) [
  | inl e ↦ rw (e, task_step) (s, omega arith)
  | inr (unstarted, e) ↦
      rw (e, task_step)
        (rw e at (loop_test-Sent bound i unstarted c c.iterations (omega arith) refl e before s))
  | inr (waiting, e) ↦
      rw (e, task_step)
        (rw e at (
          loop_test-Sent bound i waiting c ((c.iterations + 1) % 2 ^ 64)
            (omega (arith, s.within, counted e)) refl e before s))
  | inr (returned, e) ↦ rw (e, task_step) (s, omega arith)
]
  where
    counted : get_elem? c.tasks i ≡ some waiting → c.iterations < bound
    counted e =
        let (here, after) = in_turn c.tasks i waiting refl e before s.turn in
        omega (arith, here, s.within)

all_returned-in_hand : (ps : List Phase) → all_returned ps ≡ true → total in_hand ps ≡ 0
all_returned-in_hand [] h = refl
all_returned-in_hand (returned ∷ ps) h = omega (arith, all_returned-in_hand ps h)
all_returned-in_hand (unstarted ∷ ps) h = cc
all_returned-in_hand (waiting ∷ ps) h = cc

all_returned-dead :
    (ps : List Phase) (i : ℕ) → all_returned ps ≡ true → is_live (get_elem? ps i) ≡ false
all_returned-dead [] i h = refl
all_returned-dead (returned ∷ ps) zero h = refl
all_returned-dead (returned ∷ ps) (suc i) h = all_returned-dead ps i h
all_returned-dead (unstarted ∷ ps) i h = cc
all_returned-dead (waiting ∷ ps) i h = cc

pub message_step-dead :
    (bound i : ℕ) (c : Counters)
    → is_live (get_elem? c.tasks i) ≡ false
    → message_step bound i c ≡ c
unfolding message_step task_step
message_step-dead bound i c dead = elim (Option-cases (get_elem? c.tasks i)) [
  | inl e ↦ rw (e, task_step) refl
  | inr (unstarted, e) ↦ absurd (true≢false (rw e at dead))
  | inr (waiting, e) ↦ absurd (true≢false (rw e at dead))
  | inr (returned, e) ↦ rw (e, task_step) refl
]
  where
    true≢false : true ≡ false → ⊥
    true≢false h = cc

counted :
    (base sent before after : ℕ) (b : Bool)
    → after ≡ before + (if b then 1 else 0)
    → sent ≤ base + before
    → (if b then sent + 1 else sent) ≤ base + after
counted base sent before after true e h = omega arith
counted base sent before after false e h = omega arith

module _ (concurrency W N : ℕ) where
  -- What is known of `client` where `sent` messages were begun.
  abbrev pub IsClient : (sent : ℕ) → Stage → Counters → Type 0
  IsClient sent warming c = IsSending W c × (sent ≤ 0 + begun c)
  IsClient sent measuring c = IsSending N c × (sent ≤ W + begun c)
  IsClient sent finished c = (all_returned c.tasks ≡ true) × (sent ≤ W + N)

  tasks_new-IsSending : (bound : ℕ) → IsSending bound (tasks_new concurrency)
  unfolding tasks_new
  tasks_new-IsSending bound = record {
    turn =
        AllUnstarted-IsInTurn (unstarted_tasks concurrency)
          (unstarted_tasks-AllUnstarted concurrency);
    within = omega (
      arith,
      AllUnstarted-in_hand (unstarted_tasks concurrency) (unstarted_tasks-AllUnstarted concurrency),
    );
  }

  pub tasks_new-IsClient : IsClient 0 warming (tasks_new concurrency)
  tasks_new-IsClient = (tasks_new-IsSending W, omega arith)

  advance-IsClient :
      (sent : ℕ) (stage : Stage) (c : Counters)
      → IsClient sent stage c
      → let p : Peer = advance concurrency W N (record { stage = stage; counters = c }) in
        IsClient sent p.stage p.counters
  unfolding advance
  advance-IsClient sent warming c v = elim (Bool-cases (all_returned c.tasks)) [
    | inl e ↦ rw e (tasks_new-IsSending N, omega (arith, v.1, v.0.within))
    | inr e ↦ rw e v
  ]
  advance-IsClient sent measuring c v = elim (Bool-cases (all_returned c.tasks)) [
    | inl e ↦ rw e (e, omega (arith, v.1, v.0.within))
    | inr e ↦ rw e v
  ]
  advance-IsClient sent finished c v = rw v.0 v

  pub IsClient-sent :
      (sent : ℕ) (stage : Stage) (c : Counters) → IsClient sent stage c → sent ≤ W + N
  IsClient-sent sent warming c v = omega (arith, v.0.within, v.1)
  IsClient-sent sent measuring c v = omega (arith, v.0.within, v.1)
  IsClient-sent sent finished c v = v.1

  abbrev Stepped : (sent i : ℕ) → Peer → Type 0
  Stepped sent i p =
      let p' : Peer = peer_step concurrency W N i p in
      IsClient (if begins concurrency W N i p then sent + 1 else sent) p'.stage p'.counters

  module _ (W_fits : W < 2 ^ 64) (N_fits : N < 2 ^ 64) where
    stepped :
        (sent i : ℕ) (stage : Stage) (c : Counters)
        → AllBefore i c.tasks
        → IsClient sent stage c
        → Stepped sent i (record { stage = stage; counters = c })
    unfolding peer_step begins
    stepped sent i warming c before v =
        let c' = message_step W i c in
        let (s, same) = message_step-Sent W i c W_fits before v.0 in
        advance-IsClient _ warming c'
          (s, counted 0 sent (begun c) (begun c') (begins_at i c c') same v.1)
    stepped sent i measuring c before v =
        let c' = message_step N i c in
        let (s, same) = message_step-Sent N i c N_fits before v.0 in
        advance-IsClient _ measuring c'
          (s, counted W sent (begun c) (begun c') (begins_at i c c') same v.1)
    stepped sent i finished c before v =
        let dead = all_returned-dead c.tasks i v.0 in
        rw (message_step-dead N i c dead, dead) (advance-IsClient sent finished c v)

    pub peer_step-IsClient :
        (sent i : ℕ) (p : Peer)
        → AllBefore i p.counters.tasks
        → IsClient sent p.stage p.counters
        → Stepped sent i p
    peer_step-IsClient sent i p before v = stepped sent i p.stage p.counters before v
