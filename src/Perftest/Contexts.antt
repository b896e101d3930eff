-- ===== src/Perftest/Contexts.antt =====
-- The context that `main` of examples/perftest.cc builds by src/context.cc.
use ucxpp.Base.{ℕ, ◌≡◌, ◌∙◌, refl, ap, if◌then◌else◌, Bool, true, false}
use ucxpp.Ucx.{count_if, is_undefined}
use ucxpp.Context.{Feature, Answers, build, builder, calls}
use ucxpp.Context.Build.{sets_mt, build-undefined}
use ucxpp.Perftest.Options.{
  TestCategory, tag_test, stream_test, rma_test, PerfContext, context_calls,
}

-- `main` never calls `enable_mt`.
sets_mt-context_calls :
    (perf : PerfContext) (t : TestCategory) (epoll : Bool)
    → sets_mt (context_calls (record perf { test = t; epoll = epoll })) ≡ false
unfolding sets_mt context_calls
sets_mt-context_calls perf tag_test true = refl
sets_mt-context_calls perf tag_test false = refl
sets_mt-context_calls perf stream_test true = refl
sets_mt-context_calls perf stream_test false = refl
sets_mt-context_calls perf rma_test true = refl
sets_mt-context_calls perf rma_test false = refl

-- Whatever its options, `main` makes the builder read a field that was never set.
pub context_calls-undefined :
    (flag : Feature → ℕ) (perf : PerfContext) (garbage : Bool) (a : Answers)
    → count_if is_undefined (build (calls flag builder (context_calls perf)) garbage a).0 ≡ 1
context_calls-undefined flag perf garbage a =
    build-undefined flag (context_calls perf) garbage a
    ∙ ap (λ (b : Bool). if b then 0 else 1) (sets_mt-context_calls perf perf.test perf.epoll)
