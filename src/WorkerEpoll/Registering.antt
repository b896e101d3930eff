-- ===== src/WorkerEpoll/Registering.antt =====
-- examples/worker_epoll.cc: `register_loop` itself, and what its callback does to the event loop.
use ucxpp.Base.{ℕ, List, [], ◌∷◌, true, some, ◌==◌, if◌then◌else◌}
use ucxpp.Base.Int.{pos, negsuc}
use ucxpp.Base.Dict.{insert}
use ucxpp.Errors.{Result, ok}
use ucxpp.EventLoop.{Epoll, World, undefined, emit}
use ucxpp.EventLoop.Program.{Command, awaits_readable, drops, leaves}
use ucxpp.Channel.{channel_new, set_event_loop, set_readable_callback, wait_readable}
use ucxpp.Worker.{Worker}
use ucxpp.WorkerEpoll as Callback
use ucxpp.WorkerEpoll.{Next, unregister, none_yet, throws}

module _ {K : Type 0} (E : Epoll K) where
  -- `register_loop`, with the new channel at the address `id` and the number `callback` for its
  -- callback. A worker without an event descriptor fails the assertion of `event_fd`.
  unfoldable pub register_loop : Worker → (id callback : ℕ) → World K → World K × Result (Unit {0})
  unfolding channel_new set_event_loop set_readable_callback wait_readable
  register_loop worker id callback w = elim worker.event_fd_ [
    | negsuc n ↦ (emit undefined w, ok tt)
    | pos fd ↦
        let made = record w { objects = insert id (channel_new fd) w.objects } in
        wait_readable E id (set_readable_callback id (some callback) (set_event_loop id true made))
  ]

-- The callback on the loop, behind its calls of the worker: it waits again, or it leaves the loop and
-- gives up the pointer to the channel that it holds.
unfoldable pub callback_commands : (id callback : ℕ) → Next → List Command
callback_commands id callback Callback.wait_readable = awaits_readable id callback ∷ []
callback_commands id callback unregister = leaves id ∷ drops id ∷ []
callback_commands id callback none_yet = []
callback_commands id callback (throws e) = []

-- A program in which `callback` is that of a worker.
unfoldable pub worker_program :
    {K : Type 0} (id callback : ℕ)
    → Next
    → (program : ℕ → World K → List Command) → ℕ
    → World K
    → List Command
unfolding callback_commands
worker_program id callback next program coroutine w =
    if coroutine == callback then callback_commands id callback next else program coroutine w
