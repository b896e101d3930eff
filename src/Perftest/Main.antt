-- ===== src/Perftest/Main.antt =====
-- examples/perftest.cc: what `main` does behind its options, what `client` and `server` do around
-- their tasks, and the operations of the tasks.
pub mod Waiting
pub mod Enabled
use ucxpp.Base.{
  ℕ, zero, suc, ◌+◌, List, [], ◌∷◌, ◌++◌, String, Bool, true, false, Option, none, some, ltb,
  if◌then◌else◌,
}
use ucxpp.Base.Loops.{while_true}
use ucxpp.Ucx.{Post, stream_send, stream_recv, tag_send, tag_recv}
use ucxpp.Perftest.Options.{PerfContext, TestCategory, tag_test, stream_test, rma_test}
use text.Mathlib.Text as Text

-- `k_test_tag`, and the mask that `tag_recv` has by default.
abbrev pub k_test_tag : ℕ
k_test_tag = 0xFD709394

-- The operation of the loop of `sender`.
unfoldable pub sender_post : PerfContext → (ep buffer : ℕ) → Post
sender_post perf ep buffer = elim perf.test [
  | stream_test ↦ stream_send ep buffer perf.message_size
  | _ ↦ tag_send ep buffer perf.message_size k_test_tag
]

-- The operation of the loops of `receiver`; `mask` is the default argument of `tag_recv`.
unfoldable pub receiver_post : PerfContext → (ep worker buffer mask : ℕ) → Post
receiver_post perf ep worker buffer mask = elim perf.test [
  | stream_test ↦ stream_recv ep buffer perf.message_size
  | _ ↦ tag_recv worker buffer perf.message_size k_test_tag mask
]

-- What `main` does, step by step. The context is built before.
pub data Action : Type 0 where
  makes_loop makes_worker warns_no_core registers_loop : Action
  binds_cpu : (core : ℕ) → Action
  makes_listener : (port : ℕ) → Action
  makes_connector : (address : String) → (port : ℕ) → Action
  starts_server starts_client : Action
  polls progresses closes_loop drops_loop : Action

-- Up to the coroutine that is detached.
unfoldable pub main_begin : PerfContext → List Action
main_begin perf =
    makes_loop
    ∷ makes_worker
    ∷ elim perf.core [ some core ↦ binds_cpu core | none ↦ warns_no_core ]
    ∷ (if Text.◌==◌ perf.server_address ""
        then makes_listener perf.server_port ∷ starts_server ∷ []
        else makes_connector perf.server_address perf.server_port ∷ starts_client ∷ [])

-- `worker.use_count() > 1`
abbrev pub shared_by : List ℕ → List Bool
shared_by [] = []
shared_by (count ∷ counts) = ltb 1 count ∷ shared_by counts

abbrev pub unconnected : List Bool → List Bool
unconnected [] = []
unconnected (connected ∷ l) = (if connected then false else true) ∷ unconnected l

-- The loops at the end of `main`: `connected` is what it reads of `g_connected`, and `use_counts` how
-- many pointers to the worker there are at each test.
unfoldable pub main_end :
    PerfContext → (connected : List Bool) → (use_counts : List ℕ) → Option (List Action)
unfolding while_true
main_end perf connected use_counts =
    if perf.epoll
    then elim (while_true (shared_by use_counts) polls (some (closes_loop ∷ polls ∷ []))) [
      | none ↦ none
      | some l ↦ some (registers_loop ∷ l)
    ]
    else (let worked = while_true (shared_by use_counts) progresses (some []) in
        while_true (unconnected connected) polls
          (elim worked [ none ↦ none | some l ↦ some (closes_loop ∷ drops_loop ∷ l) ]))
