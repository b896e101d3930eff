-- ===== src/EventLoop/Dangling.antt =====
-- Where the loop of examples/socket/event_loop.cc and its clients part: a second wait for a descriptor,
-- an event for a channel that is gone, an error, and an event with flags that `poll` does not test.
use ucxpp.Base.{
  ℕ, ◌≡◌, refl, ◌∙◌, ap, List, [], ◌∷◌, ◌++◌, append-nil, append_assoc, Bool, true, false, Option,
  none, some, arith, ◌==◌,
}
use ucxpp.Base.Dict.{lookup, insert, erase, lookup-erase}
use ucxpp.Errors.{RuntimeError, with_errno, Result, ok, err, check_errno}
use ucxpp.EventLoop.{
  Epoll, Channel, Interest, World, LoopEvent, resumes, undefined, emit, register_channel,
  deregister,
}
use ucxpp.Channel.{readable_callback, writable_callback, channel_destroy}
use ucxpp.EventLoop.Program.{Command, call, exec_all}
use ucxpp.EventLoop.Polling.{Ready, forget, branch, callbacks, release, dispatch}
use ucxpp.EventLoop.Consistent.{deregister-ok}
use ucxpp.EventLoop.Kept.{closed-channels_, channel_destroy-on_loop}
use ucxpp.EventLoop.Firing.{dispatch-callbacks, readable_callback-call, writable_callback-call}

-- The coroutine of a callback, if it holds one.
abbrev pub resumption : Option ℕ → List LoopEvent
resumption none = []
resumption (some coroutine) = resumes coroutine ∷ []

module _ {K : Type 0} (E : Epoll K) (program : ℕ → World K → List Command) where
  dispatch-unknown :
      (close_event_fd : ℕ) (event : Ready) (w : World K)
      → (event.fd == close_event_fd) ≡ false
      → lookup event.fd w.channels_ ≡ none
      → dispatch E program close_event_fd event w ≡ (emit undefined w, ok tt)
  unfolding dispatch
  dispatch-unknown close_event_fd event w other unknown = rw (other, unknown) refl

  register_channel-busy :
      (id fd : ℕ) (i j : Interest) (w : World K)
      → E.interest w.kernel fd ≡ some j
      → register_channel E id fd i w ≡ (
        record w {
          kernel = (E.add w.kernel fd i).1;
          channels_ = erase fd (insert fd id w.channels_);
        },
        err (with_errno "failed to add fd to epoll" (E.add w.kernel fd i).0.1),
      )
  unfolding register_channel check_errno
  register_channel-busy id fd i j w busy =
      rw (register_channel, check_errno, E.add_twice w.kernel fd i j busy) refl

  -- A wait for a descriptor that is registered throws, but `register_channel` takes the earlier wait
  -- out of the map and leaves it with epoll: its event then fails the assertion of `poll`.
  pub second_wait-undefined :
      (close_event_fd : ℕ) (event : Ready) (id : ℕ) (i j : Interest) (w : World K)
      → (event.fd == close_event_fd) ≡ false
      → E.interest w.kernel event.fd ≡ some j
      → let (w', r) = register_channel E id event.fd i w in
        ((e : RuntimeError) × (r ≡ err e))
        × (E.interest w'.kernel event.fd ≡ some j)
        × (dispatch E program close_event_fd event w' ≡ (emit undefined w', ok tt))
  second_wait-undefined close_event_fd event id i j w other busy =
      rw (register_channel-busy id event.fd i j w busy) (
        (_, refl),
        rw (E.interest-add, E.add_twice w.kernel event.fd i j busy) busy,
        dispatch-unknown close_event_fd event _ other
            (ground (arith, lookup-erase event.fd event.fd (insert event.fd id w.channels_))),
      )

  -- If a coroutine that an event of a batch resumes drops a channel, a later event of the batch for
  -- that channel fails the assertion of `poll`.
  pub stale_event-undefined :
      (close_event_fd : ℕ) (event : Ready) (id : ℕ) (c : Channel) (w : World K)
      → (event.fd == close_event_fd) ≡ false
      → lookup id w.objects ≡ some c
      → c.has_loop ≡ true
      → c.fd_ ≡ event.fd
      → let w' = channel_destroy E id w in
        dispatch E program close_event_fd event w' ≡ (emit undefined w', ok tt)
  stale_event-undefined close_event_fd event id c w other here on same =
      dispatch-unknown close_event_fd event (channel_destroy E id w) other (
        rw
          (
            channel_destroy-on_loop E id c w here on,
            closed-channels_,
            deregister-ok E c.fd_ w,
            same,
          )
          (ground (arith, lookup-erase event.fd event.fd w.channels_)))

  -- An event that has neither EPOLLIN nor EPOLLOUT nor EPOLLERR, as EPOLLPRI or EPOLLHUP alone, changes
  -- nothing, so that the descriptor stays registered and is reported again.
  pub unhandled_event-unchanged :
      (close_event_fd : ℕ) (event : Ready) (id : ℕ) (c : Channel) (w : World K)
      → (event.fd == close_event_fd) ≡ false
      → (event.readable ≡ false) × (event.writable ≡ false) × (event.error ≡ false)
      → lookup event.fd w.channels_ ≡ some id
      → lookup id w.objects ≡ some c
      → (w.locked ≡ none) × (w.doomed ≡ false)
      → dispatch E program close_event_fd event w ≡ (w, ok tt)
  unfolding dispatch callbacks branch release
  unhandled_event-unchanged close_event_fd event id c w other (r, wr, er) known here (l, d) =
      rw (other, known, here, r, wr, er, l, d) refl

  call-silent :
      ((coroutine : ℕ) (w : World K) → program coroutine w ≡ [])
      → (callback : Option ℕ) (w : World K)
      → call E program callback w ≡ record w { trace = w.trace ++ resumption callback }
  unfolding call exec_all
  call-silent silent none w = rw (append-nil w.trace) refl
  call-silent silent (some coroutine) w = rw silent refl

  -- A callback whose coroutine suspends without another wait.
  abbrev quiet : (callback : Option ℕ) (fd : ℕ) → World K → World K
  quiet callback fd w = record w {
    kernel = (E.del w.kernel fd).1;
    channels_ = erase fd w.channels_;
    trace = w.trace ++ resumption callback;
  }

  abbrev error_branch : (fd : ℕ) → World K × Result (Unit {0}) → World K × Result (Unit {0})
  error_branch fd r = elim r.1 [ ok u ↦ (forget fd r.0, ok tt) | err e ↦ (r.0, err e) ]

  branch-error :
      (run : World K → World K × Result (Unit {0})) (ready : Bool) (fd : ℕ) (w w' : World K)
      → run w ≡ (w', ok tt)
      → branch E program run ready true fd w ≡ (forget fd w', ok tt)
  unfolding branch
  branch-error run false fd w w' e = ap (error_branch fd) e
  branch-error run true fd w w' e = ap (error_branch fd) e

  callbacks-error :
      (silent : (coroutine : ℕ) (w : World K) → program coroutine w ≡ []) (id fd : ℕ)
      (readable writable : Bool) (c : Channel) (w : World K)
      → lookup id w.objects ≡ some c
      → c.has_loop ≡ true
      → c.fd_ ≡ fd
      → w.doomed ≡ false
      → callbacks E program id fd readable writable true w ≡ (
        record (forget fd
            (quiet c.writable_callback_ fd (forget fd (quiet c.readable_callback_ fd w)))) {
              locked = none;
              doomed = false;
            },
        ok tt,
      )
  unfolding callbacks release
  callbacks-error silent id fd readable writable c w here on same alive =
      ap then_write first_run ∙ ap give_back second_run ∙ rw (release, alive) refl
    where
      held : World K
      held = record w { locked = some id }

      first : World K
      first = quiet c.readable_callback_ fd held

      second : World K
      second = quiet c.writable_callback_ fd (forget fd first)

      quietly :
          (callback : Option ℕ) (v : World K)
          → ◌≡◌ {A = World K × Result (Unit {0})}
              (call E program callback (deregister E c.fd_ v).0, ok tt)
              (quiet callback fd v, ok tt)
      quietly callback v = rw (deregister-ok E c.fd_ v, call-silent silent, same) refl

      first_run :
          branch E program (readable_callback E (call E program) id) readable true fd held
          ≡ (forget fd first, ok tt)
      first_run =
          branch-error (readable_callback E (call E program) id) readable fd held first
            (readable_callback-call E program id c held here on ∙ quietly c.readable_callback_ held)

      second_run :
          branch E program
            (writable_callback E (call E program) id)
            writable
            true
            fd
            (forget fd first)
          ≡ (forget fd second, ok tt)
      second_run =
          branch-error (writable_callback E (call E program) id) writable fd (forget fd first)
            second
            (writable_callback-call E program id c (forget fd first) here on
              ∙ quietly c.writable_callback_ (forget fd first))

      give_back : World K × Result (Unit {0}) → World K × Result (Unit {0})
      give_back r = (release E program id r.0, r.1)

      then_write : World K × Result (Unit {0}) → World K × Result (Unit {0})
      then_write r = elim r.1 [
        | err e ↦ (release E program id r.0, err e)
        | ok u ↦
            give_back
              (branch E program (writable_callback E (call E program) id) writable true fd r.0)
      ]

  -- If the coroutines suspend without a further command, an event with EPOLLERR for a channel that
  -- lives and has the loop resumes the coroutines of both of its callbacks, one after the other,
  -- whichever of them waited, and takes the descriptor out of the map.
  pub error_event-both :
      (close_event_fd : ℕ) (event : Ready) (id : ℕ) (c : Channel) (w : World K)
      → ((coroutine : ℕ) (w : World K) → program coroutine w ≡ [])
      → (event.fd == close_event_fd) ≡ false
      → event.error ≡ true
      → lookup event.fd w.channels_ ≡ some id
      → lookup id w.objects ≡ some c
      → c.has_loop ≡ true
      → c.fd_ ≡ event.fd
      → w.doomed ≡ false
      → let r = dispatch E program close_event_fd event w in
        (r.0.trace
          ≡ w.trace ++ (resumption c.readable_callback_ ++ resumption c.writable_callback_))
        × (lookup event.fd r.0.channels_ ≡ none)
  error_event-both close_event_fd event id c w silent other bad known here on same alive =
      rw
        (
          dispatch-callbacks E program close_event_fd event id c w other known here,
          bad,
          callbacks-error silent id event.fd event.readable event.writable c w here on same alive,
        )
        (
          append_assoc w.trace (resumption c.readable_callback_) (resumption c.writable_callback_),
          ground (
            arith,
            lookup-erase event.fd event.fd
                (erase event.fd (erase event.fd (erase event.fd w.channels_))),
          ),
        )
