-- ===== src/Perftest/Main/Enabled.antt =====
-- examples/perftest.cc: the features of the context that `main` builds, and what the program needs.
use mathlib.Core.Bool.{or-false}
use ucxpp.Base.{
  ℕ, ◌≡◌, refl, ap, ◌∙◌, sym, List, [], ◌∷◌, Bool, true, false, ◌||◌, ◌&&◌, Option, none, some,
  Option-cases, Bool-cases, inl, inr, if◌then◌else◌, arith,
}
use ucxpp.Base.Loops.{while_true}
use ucxpp.Ucx.{Post, stream_send, stream_recv, tag_send, tag_recv}
use ucxpp.Context.{Feature, wakeup, tag, stream, enable, builder, calls}
use ucxpp.Context.Features.{IsFlags, has, same, enables, has-builder}
use ucxpp.Perftest.Options.{
  PerfContext, TestCategory, tag_test, stream_test, rma_test, context_calls,
}
use ucxpp.Perftest.Main.{
  sender_post, receiver_post, Action, registers_loop, polls, progresses, closes_loop, drops_loop,
  shared_by, unconnected, main_end,
}

-- The feature that UCX documents an operation to need.
pub record Requirements : Type 0 where
  pub needs : Post → Option Feature
  pub needs-stream_send :
      (ep buffer length : ℕ) → needs (stream_send ep buffer length) ≡ some stream
  pub needs-stream_recv :
      (ep buffer length : ℕ) → needs (stream_recv ep buffer length) ≡ some stream
  pub needs-tag_send : (ep buffer length t : ℕ) → needs (tag_send ep buffer length t) ≡ some tag
  pub needs-tag_recv :
      (worker buffer length t mask : ℕ) → needs (tag_recv worker buffer length t mask) ≡ some tag

abbrev pub is_for : Feature → Option Feature → Bool
is_for f none = false
is_for f (some g) = same g f

-- Whether the event descriptor of the worker is asked for.
abbrev pub registers : List Action → Bool
registers [] = false
registers (registers_loop ∷ l) = true
registers (_ ∷ l) = registers l

while_true-registers :
    (tests : List Bool) (body : Action) (behind : Option (List Action)) (l : List Action)
    → ((rest : List Action) → registers (body ∷ rest) ≡ registers rest)
    → while_true tests body behind ≡ some l
    → (m : List Action) × (behind ≡ some m) × (registers l ≡ registers m)
unfolding while_true
while_true-registers [] body behind l quiet h = cc
while_true-registers (false ∷ tests) body behind l quiet h = (l, h, refl)
while_true-registers (true ∷ tests) body behind l quiet h =
    elim (Option-cases (while_true tests body behind)) [
      | inl e ↦ absurd (ground (arith, e))
      | inr (rest, e) ↦
          let (m, known, registered) = while_true-registers tests body behind rest quiet e in
          let same_list : body ∷ rest ≡ l = ground (arith, e) in
          (m, known, ap registers (sym same_list) ∙ quiet rest ∙ registered)
    ]

main_end-registers :
    (perf : PerfContext) (connected : List Bool) (use_counts : List ℕ) (l : List Action)
    → main_end perf connected use_counts ≡ some l
    → registers l ≡ perf.epoll
unfolding main_end
main_end-registers perf connected use_counts l h = elim (Bool-cases perf.epoll) [
  | inl epoll ↦ rw epoll (registered (rw epoll at h))
  | inr spin ↦ rw spin (spun (rw spin at h))
]
  where
    registered :
        elim (while_true (shared_by use_counts) polls (some (closes_loop ∷ polls ∷ [])))
            as (λ x. Option (List Action)) [ none ↦ none | some l ↦ some (registers_loop ∷ l) ]
          ≡ some l
        → registers l ≡ true
    registered e = ground arith

    spun :
        while_true
            (unconnected connected)
            polls
            (elim (while_true (shared_by use_counts) progresses (some []))
              as (λ x. Option (List Action)) [
                | none ↦ none
                | some l ↦ some (closes_loop ∷ drops_loop ∷ l)
              ])
          ≡ some l
        → registers l ≡ false
    spun e =
        let (m, known, same_as) =
          while_true-registers (unconnected connected) polls _ l (λ rest. refl) e in
        elim (Option-cases (while_true (shared_by use_counts) progresses (some []))) [
          | inl e' ↦ absurd (ground (arith, e'))
          | inr (rest, e') ↦
              let (m', known', same') =
                while_true-registers (shared_by use_counts) progresses (some []) rest (λ rest. refl)
                  e' in
              let list : closes_loop ∷ drops_loop ∷ rest ≡ m = ground (arith, e') in
              let nil : [] ≡ m' = ground arith in
              same_as ∙ ap registers (sym list) ∙ same' ∙ ap registers (sym nil)
        ]

module _ (flag : Feature → ℕ) (flags : IsFlags flag) (R : Requirements) where
  -- The context that `main` builds has exactly the features that the rest of the program needs: that of
  -- the operation of the senders, that of the operation of the receivers, which UCX documents to be
  -- tag matching or streams, and wakeup if `main` comes to its end through `register_loop`; the flags
  -- are single bits, no two the same.
  pub main-IsEnabled :
      (perf : PerfContext) (f : Feature) (ep worker buffer mask : ℕ) (connected : List Bool)
      (use_counts : List ℕ) (l : List Action)
      → main_end perf connected use_counts ≡ some l
      → has flag f (calls flag builder (context_calls perf)).features_ ≡ (
          is_for f (R.needs (sender_post perf ep buffer))
          || is_for f (R.needs (receiver_post perf ep worker buffer mask))
          || (registers l && same wakeup f))
  unfolding enables context_calls sender_post receiver_post
  main-IsEnabled perf f ep worker buffer mask connected use_counts l h =
      has-builder flag flags f (context_calls perf)
      ∙ rw (main_end-registers perf connected use_counts l h) (by_test perf.test perf.epoll)
    where
      either :
          (b epoll : Bool)
          → (b || enables f (if epoll then enable wakeup ∷ [] else []))
            ≡ (b || b || (epoll && same wakeup f))
      either true true = refl
      either true false = refl
      either false true = or-false _
      either false false = refl

      by_test :
          (t : TestCategory) (epoll : Bool)
          → let p : PerfContext = record perf { test = t; epoll = epoll } in
            enables f (context_calls p) ≡ (
              is_for f (R.needs (sender_post p ep buffer))
              || is_for f (R.needs (receiver_post p ep worker buffer mask))
              || (epoll && same wakeup f))
      by_test stream_test epoll =
          rw (R.needs-stream_send, R.needs-stream_recv) (either (same stream f) epoll)
      by_test tag_test epoll = rw (R.needs-tag_send, R.needs-tag_recv) (either (same tag f) epoll)
      by_test rma_test epoll = rw (R.needs-tag_send, R.needs-tag_recv) (either (same tag f) epoll)
