-- ===== src/EventLoop/Running.antt =====
-- The life of `event_loop` of examples/socket/event_loop.cc: the constructor, the loop around `poll` and
-- the destructor. What the calls of the system return, with `errno`, is an argument.
use ucxpp.Base.{ℕ, List, [], ◌∷◌, ◌++◌, false, Option, none, some, ◌==◌, if◌then◌else◌}
use ucxpp.Base.Int.{ℤ, pos, negsuc}
use ucxpp.Errors.{RuntimeError, Result, ok, err, check_errno}
use ucxpp.EventLoop.{Epoll, World, has_failed}
use ucxpp.EventLoop.Program.{Command}
use ucxpp.EventLoop.Polling.{Ready, poll}

-- The two descriptors of the loop.
pub record Descriptors : Type 0 where
  pub epoll_fd_ : ℤ
  pub close_event_fd_ : ℤ

pub data FdEvent : Type 0 where
  created closed : (fd : ℕ) → FdEvent

abbrev pub creating : ℤ → List FdEvent
creating (pos fd) = created fd ∷ []
creating (negsuc k) = []

-- `event_loop::event_loop`
unfoldable pub event_loop_new : (epoll event added : ℤ × ℕ) → List FdEvent × Result Descriptors
event_loop_new (epoll_fd, errno) (event_fd, errno') (rc, errno'') =
    elim (check_errno errno epoll_fd "failed to create epoll fd") [
      | err e ↦ ([], err e)
      | ok u ↦ elim (check_errno errno' event_fd "failed to create close event fd") [
        | err e ↦ (creating epoll_fd, err e)
        | ok u ↦ elim (check_errno errno'' rc "failed to add close event fd to epoll") [
          | err e ↦ (creating epoll_fd ++ creating event_fd, err e)
          | ok u ↦ (
            creating epoll_fd ++ creating event_fd,
            ok (record { epoll_fd_ = epoll_fd; close_event_fd_ = event_fd }),
          )
        ]
      ]
    ]

-- The call of `close` for a descriptor above 0.
abbrev pub closing : ℤ → List FdEvent
closing (pos fd) = if fd == 0 then [] else closed fd ∷ []
closing (negsuc k) = []

-- `event_loop::~event_loop`
unfoldable pub event_loop_destroy : Descriptors → List FdEvent
event_loop_destroy d = closing d.close_event_fd_ ++ closing d.epoll_fd_

-- What one `epoll_wait` gives.
pub record Wait : Type 0 where
  pub waited : ℤ × ℕ
  pub events : List Ready

-- How the loop ends: it returns, an exception leaves it, or an assertion that failed ends the program.
pub data LoopEnd : Type 0 where
  returned aborted : LoopEnd
  threw : RuntimeError → LoopEnd

module _ {K : Type 0} (E : Epoll K) (program : ℕ → World K → List Command) where
  -- `while (!close_triggered)`, with the flag of `poll` in the state. Nothing is returned while it waits.
  unfoldable pub loop_while :
      (close_event_fd eintr : ℕ) → List Wait → World K → Option (World K × LoopEnd)
  unfolding poll
  loop_while close_event_fd eintr [] w = if w.close_triggered then some (w, returned) else none
  loop_while close_event_fd eintr (wait ∷ waits) w =
      let r = poll E program close_event_fd eintr wait.waited wait.events w in
      let rest = loop_while close_event_fd eintr waits r.0 in
      if w.close_triggered then some (w, returned) else elim r.1 [
        | ok u ↦ if has_failed r.0.trace then some (r.0, aborted) else rest
        | err e ↦ some (r.0, threw e)
      ]

  -- `event_loop::loop`
  unfoldable pub loop :
      (close_event_fd eintr : ℕ) → List Wait → World K → Option (World K × LoopEnd)
  unfolding loop_while
  loop close_event_fd eintr waits w =
      loop_while close_event_fd eintr waits (record w { close_triggered = false })
