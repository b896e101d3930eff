-- ===== src/EventLoop/Ends.antt =====
-- How `event_loop::loop` of examples/socket/event_loop.cc ends.
use ucxpp.Base.{ℕ, ◌≡◌, List, [], ◌∷◌, Bool, false}
use ucxpp.Base.Int.{is_negative}
use ucxpp.EventLoop.{Epoll, World, has_failed}
use ucxpp.EventLoop.Program.{Command}
use ucxpp.EventLoop.Polling.{poll}
use ucxpp.EventLoop.Running.{Wait}
use ucxpp.EventLoop.Flag.{has_close}

module _ {K : Type 0} (E : Epoll K) (program : ℕ → World K → List Command) where
  -- The batch of a wait is dispatched.
  abbrev pub Arrives : (close_event_fd : ℕ) → Bool → Wait → Type 0
  Arrives close_event_fd closing wait =
      (is_negative wait.waited.0 ≡ false)
      × (has_close E program close_event_fd wait.events ≡ closing)

  abbrev pub polled : (close_event_fd eintr : ℕ) → Wait → World K → World K
  polled close_event_fd eintr wait w =
      (poll E program close_event_fd eintr wait.waited wait.events w).0

  -- The state after the polls for some waits.
  abbrev pub polls : (close_event_fd eintr : ℕ) → List Wait → World K → World K
  polls close_event_fd eintr [] w = w
  polls close_event_fd eintr (wait ∷ waits) w =
      polls close_event_fd eintr waits (polled close_event_fd eintr wait w)

  abbrev pub AllQuiet : (close_event_fd : ℕ) → List Wait → Type 0
  AllQuiet close_event_fd [] = Unit
  AllQuiet close_event_fd (wait ∷ waits) =
      Arrives close_event_fd false wait × AllQuiet close_event_fd waits

  -- Nothing undefined happens in the polls: no assertion fails.
  abbrev pub AllSound : (close_event_fd eintr : ℕ) → List Wait → World K → Type 0
  AllSound close_event_fd eintr [] w = Unit
  AllSound close_event_fd eintr (wait ∷ waits) w =
      let w' = polled close_event_fd eintr wait w in
      (has_failed w'.trace ≡ false) × AllSound close_event_fd eintr waits w'
