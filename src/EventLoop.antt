-- ===== src/EventLoop.antt =====
-- examples/socket/event_loop.cc: the loop, and the channels that it knows. The interest list of epoll
-- belongs to the kernel, so it is a parameter with the behaviour that epoll_ctl(2) documents.
pub mod Polling
pub mod Program
pub mod Consistent
pub mod Kept
pub mod Waits
pub mod Firing
pub mod Steady
pub mod Flag
pub mod Text
pub mod Running
pub mod Ends
pub mod Dangling
use ucxpp.Base.{
  ℕ, ◌≡◌, List, [], ◌∷◌, ◌++◌, Bool, true, false, Option, none, some, not, ◌&&◌, ◌==◌,
  if◌then◌else◌,
}
use ucxpp.Base.Int.{ℤ, is_negative}
use ucxpp.Base.Dict.{Dict, lookup, insert, erase}
use ucxpp.Errors.{RuntimeError, Result, ok, err, check_errno}

-- The events that a descriptor is registered for: EPOLLIN and EPOLLPRI, or EPOLLOUT.
pub data Interest : Type 0 where
  reads writes : Interest

-- EPOLL_CTL_ADD and EPOLL_CTL_DEL for one epoll instance, whose state is `K`: what they return, with
-- `errno`, and the new state. A descriptor is registered once at most; a call that fails changes
-- nothing; removing a descriptor fails only if it is not registered, and then by ENOENT.
pub record Epoll (K : Type 0) : Type 0 where
  pub interest : K → ℕ → Option Interest
  pub add : K → (fd : ℕ) → Interest → (ℤ × ℕ) × K
  pub del : K → (fd : ℕ) → (ℤ × ℕ) × K
  pub enoent : ℕ
  pub interest-add :
      (k : K) (fd : ℕ) (i : Interest) (fd' : ℕ)
      → interest (add k fd i).1 fd' ≡ (
          if is_negative (add k fd i).0.0
          then interest k fd'
          else if fd' == fd
          then some i
          else interest k fd')
  pub add_twice :
      (k : K) (fd : ℕ) (i j : Interest)
      → interest k fd ≡ some j
      → is_negative (add k fd i).0.0 ≡ true
  pub interest-del :
      (k : K) (fd fd' : ℕ)
      → interest (del k fd).1 fd' ≡ (
          if is_negative (del k fd).0.0
          then interest k fd'
          else if fd' == fd
          then none
          else interest k fd')
  pub del_registered :
      (k : K) (fd : ℕ) (j : Interest) → interest k fd ≡ some j → is_negative (del k fd).0.0 ≡ false
  pub del_missing :
      (k : K) (fd : ℕ)
      → interest k fd ≡ none
      → (is_negative (del k fd).0.0 ≡ true) × ((del k fd).0.1 ≡ enoent)

-- `channel`. `loop_` is null or this loop; a callback is `noop_callback` or resumes a coroutine.
pub record Channel : Type 0 where
  pub fd_ : ℕ
  pub has_loop : Bool
  pub readable_callback_ : Option ℕ
  pub writable_callback_ : Option ℕ

-- What can be seen from outside. `undefined` stands for an assertion that fails, a null pointer that
-- is followed and an exception that leaves a destructor.
pub data LoopEvent : Type 0 where
  resumes : (coroutine : ℕ) → LoopEvent
  closes : (fd : ℕ) → LoopEvent
  raises : RuntimeError → LoopEvent
  undefined : LoopEvent

-- The loop with the channels that live, by their addresses. While `poll` holds a channel the release
-- of the last other pointer to it is put off: `locked` and `doomed`.
pub record World (K : Type 0) : Type 0 where
  pub kernel : K
  pub channels_ : Dict ℕ
  pub objects : Dict Channel
  pub locked : Option ℕ
  pub doomed : Bool
  pub close_triggered : Bool
  pub trace : List LoopEvent

-- Whether an assertion has failed, or something else has ended the program.
abbrev pub has_failed : List LoopEvent → Bool
has_failed [] = false
has_failed (undefined ∷ l) = true
has_failed (_ ∷ l) = has_failed l

module _ {K : Type 0} where
  abbrev pub emit : LoopEvent → World K → World K
  emit e w = record w { trace = w.trace ++ e ∷ [] }

  module _ (E : Epoll K) where
    -- `event_loop::register_channel`, for the channel at `id`.
    unfoldable pub register_channel : (id fd : ℕ) → Interest → World K → World K × Result (Unit {0})
    register_channel id fd i w =
        let added = insert fd id w.channels_ in
        let r = E.add w.kernel fd i in
        elim (check_errno r.0.1 r.0.0 "failed to add fd to epoll") [
          | ok u ↦ (record w { kernel = r.1; channels_ = added }, ok tt)
          | err e ↦ (record w { kernel = r.1; channels_ = erase fd added }, err e)
        ]

    -- `event_loop::register_read` and `event_loop::register_write`
    unfoldable pub register_read : (id fd : ℕ) → World K → World K × Result (Unit {0})
    unfolding register_channel
    register_read id fd w = register_channel id fd reads w

    unfoldable pub register_write : (id fd : ℕ) → World K → World K × Result (Unit {0})
    unfolding register_channel
    register_write id fd w = register_channel id fd writes w

    -- `event_loop::deregister`
    unfoldable pub deregister : (fd : ℕ) → World K → World K × Result (Unit {0})
    deregister fd w =
        let r = E.del w.kernel fd in
        let checked =
          if is_negative r.0.0 && not (r.0.1 == E.enoent)
          then check_errno r.0.1 r.0.0 "failed to remove fd from epoll"
          else ok tt in
        elim checked [
          | ok u ↦ (record w { kernel = r.1; channels_ = erase fd w.channels_ }, ok tt)
          | err e ↦ (record w { kernel = r.1 }, err e)
        ]
