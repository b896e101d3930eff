-- ===== src/Tests/Serving.antt =====
-- examples/worker_epoll.cc on a concrete event loop.
use ucxpp.Base.{ℕ, ◌≡◌, refl, List, [], ◌∷◌, true, false}
use ucxpp.Base.Dict.{Dict, lookup, erase}
use ucxpp.Errors.{ucs_ok, check_ucs_status}
use ucxpp.EventLoop.{Interest, World}
use ucxpp.EventLoop.Program.{Command}
use ucxpp.EventLoop.Polling.{Ready, dispatch}
use ucxpp.EventLoop.Consistent.{Consistent}
use ucxpp.EventLoop.Waits.{waits}
use ucxpp.WorkerEpoll.{readable_callback}
use ucxpp.WorkerEpoll.Serving.{served, dispatch_serves}
use ucxpp.Tests.{worker}
use ucxpp.Tests.Loops.{epoll, world, world-Consistent}

abbrev event : Ready
event = record { fd = 7; readable = true; writable = false; error = false }

abbrev idle : ℕ → World (Dict Interest) → List Command
idle coroutine w = []

dispatch_serves_example :
    let w' =
      (dispatch epoll
        (served epoll idle 1 5 worker (2 ∷ 0 ∷ []) (ucs_ok ∷ []) 3)
        3
        event
        world).0 in
    Consistent epoll w' × (waits epoll w' ≡ waits epoll world)
unfolding readable_callback lookup erase check_ucs_status
dispatch_serves_example =
    dispatch_serves epoll idle 1 5 worker (2 ∷ 0 ∷ []) (ucs_ok ∷ []) 3 3 event world refl
      world-Consistent refl refl refl (refl, refl, refl) refl refl
