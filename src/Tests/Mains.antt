-- ===== src/Tests/Mains.antt =====
-- The ends of examples/perftest.cc and the messages of examples/helloworld.cc on concrete values.
use ucxpp.Base.{◌≡◌, refl, [], ◌∷◌, ◌||◌, ◌&&◌, true, false, Option, none, some}
use ucxpp.Ucx.{Post, stream_send, stream_recv, tag_send, tag_recv}
use ucxpp.Context.{Feature, tag, stream, wakeup, builder, calls}
use ucxpp.Context.Features.{has, same}
use ucxpp.Perftest.Options.{PerfContext, perf_context, context_calls}
use ucxpp.Perftest.Main.{sender_post, receiver_post, registers_loop, polls, closes_loop, main_end}
use ucxpp.Perftest.Main.Enabled.{Requirements, is_for, registers, main-IsEnabled}
use ucxpp.Helloworld.Greetings.{Region}
use ucxpp.Tests.{flag, flags}

abbrev perf : PerfContext
perf = record perf_context { epoll = true }

abbrev needed : Post → Option Feature
needed p = elim p [
  | stream_send ep buffer length ↦ some stream
  | stream_recv ep buffer length ↦ some stream
  | tag_send ep buffer length t ↦ some tag
  | tag_recv worker buffer length t mask ↦ some tag
  | _ ↦ none
]

abbrev requirements : Requirements
requirements = record {
  needs = needed;
  needs-stream_send = λ ep buffer length. refl;
  needs-stream_recv = λ ep buffer length. refl;
  needs-tag_send = λ ep buffer length t. refl;
  needs-tag_recv = λ worker buffer length t mask. refl;
}

main-IsEnabled_example : has flag wakeup (calls flag builder (context_calls perf)).features_ ≡ (
    is_for wakeup (needed (sender_post perf 1 64))
    || is_for wakeup (needed (receiver_post perf 1 2 64 255))
    || (registers (registers_loop ∷ closes_loop ∷ polls ∷ []) && same wakeup wakeup))
unfolding main_end perf_context
main-IsEnabled_example =
    main-IsEnabled flag flags requirements perf wakeup 1 2 64 255 (false ∷ []) (1 ∷ [])
      (registers_loop ∷ closes_loop ∷ polls ∷ []) refl

abbrev region : Region
region = record { remote_addr = "64"; rkey_length = "3"; packed_rkey = "key" }
