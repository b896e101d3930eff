-- ===== src/EventLoop/Polling.antt =====
-- `event_loop::poll`, `event_loop::loop` and `event_loop::close` of examples/socket/event_loop.cc.
use ucxpp.Base.{ℕ, List, [], ◌∷◌, Bool, true, false, ◌&&◌, ◌||◌, none, some, ◌==◌, if◌then◌else◌}
use ucxpp.Base.Int.{ℤ, is_negative}
use ucxpp.Base.Dict.{lookup, erase}
use ucxpp.Errors.{Result, ok, err, check_errno}
use ucxpp.EventLoop.{Epoll, World, undefined, has_failed, emit}
use ucxpp.EventLoop.Program.{Command, call}
use ucxpp.Channel.{readable_callback, writable_callback, channel_destroy}

-- An event that `epoll_wait` stores: whether EPOLLIN, EPOLLOUT and EPOLLERR are among its flags. An
-- event may have others only.
pub record Ready : Type 0 where
  pub fd : ℕ
  pub readable : Bool
  pub writable : Bool
  pub error : Bool

module _ {K : Type 0} where
  abbrev pub forget : (fd : ℕ) → World K → World K
  forget fd w = record w { channels_ = erase fd w.channels_ }

  module _ (E : Epoll K) (program : ℕ → World K → List Command) where
    -- One of the two branches for a channel that lives.
    unfoldable pub branch :
        (run : World K → World K × Result (Unit {0}))
        → (ready error : Bool) (fd : ℕ) → World K
        → World K × Result (Unit {0})
    branch run ready error fd w =
        if ready || error
        then (let r = run w in
            elim r.1 [
              | ok u ↦ (if error then forget fd r.0 else r.0, ok tt)
              | err e ↦ (r.0, err e)
            ])
        else (w, ok tt)

    -- `poll` gives the pointer to the channel back.
    unfoldable pub release : (id : ℕ) → World K → World K
    unfolding channel_destroy
    release id w =
        let free = record w { locked = none; doomed = false } in
        if w.doomed then channel_destroy E id free else free

    -- What is done with a channel that lives.
    unfoldable pub callbacks :
        (id fd : ℕ) → (readable writable error : Bool) → World K → World K × Result (Unit {0})
    unfolding branch release readable_callback writable_callback call
    callbacks id fd readable writable error w =
        let held = record w { locked = some id } in
        let first = branch (readable_callback E (call E program) id) readable error fd held in
        elim first.1 [
          | err e ↦ (release id first.0, err e)
          | ok u ↦
              let second =
                branch (writable_callback E (call E program) id) writable error fd first.0 in
              (release id second.0, second.1)
        ]

    -- The body of the loop over the events. A descriptor that is not known fails an assertion, which ends
    -- the program.
    unfoldable pub dispatch : (close_event_fd : ℕ) → Ready → World K → World K × Result (Unit {0})
    unfolding callbacks
    dispatch close_event_fd event w =
        if event.fd == close_event_fd
        then (record w { close_triggered = true }, ok tt)
        else elim (lookup event.fd w.channels_) [
          | none ↦ (emit undefined w, ok tt)
          | some id ↦ elim (lookup id w.objects) [
            | none ↦ (forget event.fd w, ok tt)
            | some c ↦ callbacks id event.fd event.readable event.writable event.error w
          ]
        ]

    -- The loop over the events, up to an exception or a failed assertion.
    unfoldable pub dispatch_all :
        (close_event_fd : ℕ) → List Ready → World K → World K × Result (Unit {0})
    unfolding dispatch
    dispatch_all close_event_fd [] w = (w, ok tt)
    dispatch_all close_event_fd (event ∷ events) w =
        let r = dispatch close_event_fd event w in
        let rest = dispatch_all close_event_fd events r.0 in
        elim r.1 [
          | ok u ↦ if has_failed r.0.trace then (r.0, ok tt) else rest
          | err e ↦ (r.0, err e)
        ]

    -- `event_loop::poll`; `waited` is what `epoll_wait` returns, with `errno`, and `events` what it
    -- stores.
    unfoldable pub poll :
        (close_event_fd eintr : ℕ)
        → (waited : ℤ × ℕ) → (events : List Ready) → World K
        → World K × Result (Unit {0})
    unfolding dispatch_all
    poll close_event_fd eintr (nr_events, errno) events w =
        if is_negative nr_events && (errno == eintr)
        then (w, ok tt)
        else elim (check_errno errno nr_events "failed to epoll wait") [
          | ok u ↦ dispatch_all close_event_fd events w
          | err e ↦ (w, err e)
        ]

-- `event_loop::close`; `written` is what `write` on the event descriptor returns.
unfoldable pub loop_close : (written : ℤ × ℕ) → Result (Unit {0})
loop_close (rc, errno) = check_errno errno rc "failed to write event fd"
