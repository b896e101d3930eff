-- ===== src/Tests/Contexts.antt =====
-- src/context.cc and src/worker.cc on concrete builders and answers.
use ucxpp.Base.{◌≡◌, refl, List, [], ◌∷◌, false}
use ucxpp.Base.Int.{pos}
use ucxpp.Errors.{ucs_ok, ucs_err, ok, check_ucs_status}
use ucxpp.Ucx.{count_if}
use ucxpp.Context.{
  Feature, wakeup, tag, rma, Call, print_config, mt, enable, calls, builder, build, context_new,
  Context,
}
use ucxpp.Context
use ucxpp.Context.Features.{has, enables, has-builder}
use ucxpp.Worker.{Answers, worker_new}
use ucxpp.Worker.Wakeup.{is_get_efd, get_efd-enables}
use ucxpp.Tests.{flag, flags}

abbrev chain : List Call
chain = enable tag ∷ mt ∷ enable wakeup ∷ print_config ∷ enable tag ∷ []

has-builder_example : has flag wakeup (calls flag builder chain).features_ ≡ enables wakeup chain
has-builder_example = has-builder flag flags wakeup chain

chain_features : (calls flag builder chain).features_ ≡ 17
unfolding calls builder
chain_features = refl

abbrev answers : Context.Answers
answers = record { read = (ucs_ok, 2); init = (ucs_ok, 3) }

abbrev worker_answers : Answers
worker_answers = record { create = (ucs_ok, 4); efd = (ucs_err 3, pos 0) }

built :
    (build (calls flag builder chain) false answers).1
    ≡ ok (record { context_ = 3; features_ = 17 })
unfolding build calls builder check_ucs_status
built = refl

get_efd-enables_example :
    count_if is_get_efd (worker_new flag (record { context_ = 3; features_ = 17 }) worker_answers).0
    ≡ 1
unfolding enables
get_efd-enables_example =
    get_efd-enables flag flags chain false answers (record { context_ = 3; features_ = 17 })
      worker_answers built refl
