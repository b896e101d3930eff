-- ===== src/EventLoop/Steady.antt =====
-- Whatever `event_loop::poll` of examples/socket/event_loop.cc is given without an error, the loop
-- stays consistent under coroutines that are careful.
use ucxpp.Base.{
  ℕ, arith, ◌≡◌, refl, List, [], ◌∷◌, Bool, true, false, Option, none, some, ◌==◌, if◌then◌else◌,
  Bool-cases, Option-cases, inl, inr,
}
use ucxpp.Base.Int.{ℤ, is_negative}
use ucxpp.Base.Dict.{lookup}
use ucxpp.Errors.{Result, ok, err, check_errno}
use ucxpp.EventLoop.{Epoll, Channel, World, emit, undefined, has_failed, resumes, deregister}
use ucxpp.Channel.{readable_callback, writable_callback}
use ucxpp.EventLoop.Program.{Command, call}
use ucxpp.EventLoop.Polling.{Ready, branch, callbacks, release, dispatch, dispatch_all, poll}
use ucxpp.EventLoop.Consistent.{Consistent, deregister-Consistent}
use ucxpp.EventLoop.Firing.{dispatch-callbacks, readable_callback-call, writable_callback-call}
use ucxpp.EventLoop.Kept.{AreCareful, exec_all-Consistent, channel_destroy-Consistent}

-- No event of a batch has EPOLLERR.
abbrev pub AreErrorFree : List Ready → Type 0
AreErrorFree [] = Unit
AreErrorFree (event ∷ events) = (event.error ≡ false) × AreErrorFree events

module _ {K : Type 0} (E : Epoll K) (program : ℕ → World K → List Command) where
  -- What a coroutine does is careful in every consistent loop in which it is resumed.
  abbrev pub IsCarefulProgram : Type 0
  IsCarefulProgram =
      (coroutine : ℕ) (w : World K) → Consistent E w → AreCareful E w (program coroutine w)

  emit-Consistent :
      (w : World K) {w' : World K}
      → Consistent E w
      → w'.kernel ≡ w.kernel
      → w'.channels_ ≡ w.channels_
      → w'.objects ≡ w.objects
      → Consistent E w'
  emit-Consistent w v k c o = record { known = rw (k, c) v.known; living = rw (c, o) v.living }

  -- A channel that lives and has a loop.
  abbrev pub is_on_loop : (id : ℕ) → World K → Bool
  is_on_loop id w = elim (lookup id w.objects) [ none ↦ false | some c ↦ c.has_loop ]

  pub is_on_loop-channel :
      (id : ℕ) (w : World K)
      → is_on_loop id w ≡ true
      → (c : Channel) × (lookup id w.objects ≡ some c) × (c.has_loop ≡ true)
  is_on_loop-channel id w on = elim (Option-cases (lookup id w.objects)) [
    | inl e ↦ absurd (ground (arith, e))
    | inr (c, e) ↦ (c, e, ground (arith, e))
  ]

  pub readable_callback-undefined :
      (id : ℕ) (w : World K)
      → is_on_loop id w ≡ false
      → readable_callback E (call E program) id w ≡ (emit undefined w, ok tt)
  unfolding readable_callback
  readable_callback-undefined id w off = ground (arith, Option-cases (lookup id w.objects))

  pub writable_callback-undefined :
      (id : ℕ) (w : World K)
      → is_on_loop id w ≡ false
      → writable_callback E (call E program) id w ≡ (emit undefined w, ok tt)
  unfolding writable_callback
  writable_callback-undefined id w off = ground (arith, Option-cases (lookup id w.objects))

  module _ (careful : IsCarefulProgram) where
    call-Consistent :
        (callback : Option ℕ) (w : World K)
        → Consistent E w
        → Consistent E (call E program callback w)
    unfolding call
    call-Consistent none w v = v
    call-Consistent (some coroutine) w v =
        let v' : Consistent E (emit (resumes coroutine) w) = emit-Consistent w v refl refl refl in
        exec_all-Consistent E (program coroutine _) _ (careful coroutine _ v') v'

    resumed-Consistent :
        (callback : Option ℕ) (fd : ℕ) (w : World K)
        → Consistent E w
        → Consistent E (call E program callback (deregister E fd w).0)
    resumed-Consistent callback fd w v = call-Consistent callback _ (deregister-Consistent E fd w v)

    readable_callback-Consistent :
        (id : ℕ) (w : World K)
        → Consistent E w
        → Consistent E (readable_callback E (call E program) id w).0
    readable_callback-Consistent id w v = elim (Bool-cases (is_on_loop id w)) [
      | inl on ↦
          let (c, here, looped) = is_on_loop-channel id w on in
          rw (readable_callback-call E program id c w here looped)
            (resumed-Consistent c.readable_callback_ c.fd_ w v)
      | inr off ↦ rw (readable_callback-undefined id w off) (emit-Consistent w v refl refl refl)
    ]

    writable_callback-Consistent :
        (id : ℕ) (w : World K)
        → Consistent E w
        → Consistent E (writable_callback E (call E program) id w).0
    writable_callback-Consistent id w v = elim (Bool-cases (is_on_loop id w)) [
      | inl on ↦
          let (c, here, looped) = is_on_loop-channel id w on in
          rw (writable_callback-call E program id c w here looped)
            (resumed-Consistent c.writable_callback_ c.fd_ w v)
      | inr off ↦ rw (writable_callback-undefined id w off) (emit-Consistent w v refl refl refl)
    ]

    branch-Consistent :
        (run : World K → World K × Result (Unit {0})) (ready : Bool) (fd : ℕ) (w : World K)
        → Consistent E w
        → Consistent E (run w).0
        → Consistent E (branch E program run ready false fd w).0
    unfolding branch
    branch-Consistent run false fd w v v' = v
    branch-Consistent run true fd w v v' = ran (run w) v'
      where
        ran :
            (r : World K × Result (Unit {0}))
            → Consistent E r.0
            → Consistent E (
                let after : World K × Result (Unit {0}) = elim r.1 [
                  | ok u ↦ (r.0, ok tt)
                  | err e ↦ (r.0, err e)
                ] in
                after.0)
        ran (w', ok u) v = v
        ran (w', err e) v = v

    release-Consistent :
        (id : ℕ) (w : World K) → Consistent E w → Consistent E (release E program id w)
    unfolding release
    release-Consistent id w v = elim (Bool-cases w.doomed) [
      | inl e ↦ rw e (channel_destroy-Consistent E id _ (emit-Consistent w v refl refl refl))
      | inr e ↦ rw e (emit-Consistent w v refl refl refl)
    ]

    callbacks-Consistent :
        (id fd : ℕ) (readable writable : Bool) (w : World K)
        → Consistent E w
        → Consistent E (callbacks E program id fd readable writable false w).0
    unfolding callbacks
    callbacks-Consistent id fd readable writable w v =
        second (branch E program read readable false fd held)
          (branch-Consistent read readable fd held v' (readable_callback-Consistent id held v'))
      where
        read : World K → World K × Result (Unit {0})
        read = readable_callback E (call E program) id

        write : World K → World K × Result (Unit {0})
        write = writable_callback E (call E program) id

        held : World K
        held = record w { locked = some id }

        v' : Consistent E held
        v' = emit-Consistent w v refl refl refl

        second :
            (r : World K × Result (Unit {0}))
            → Consistent E r.0
            → Consistent E (
                let after : World K × Result (Unit {0}) = elim r.1 [
                  | err e ↦ (release E program id r.0, err e)
                  | ok u ↦
                      let s = branch E program write writable false fd r.0 in
                      (release E program id s.0, s.1)
                ] in
                after.0)
        second (w', err e) h = release-Consistent id w' h
        second (w', ok u) h =
            release-Consistent id _
              (branch-Consistent write writable fd w' h (writable_callback-Consistent id w' h))

    dispatch-Consistent :
        (close_event_fd : ℕ) (event : Ready) (w : World K)
        → event.error ≡ false
        → Consistent E w
        → Consistent E (dispatch E program close_event_fd event w).0
    unfolding dispatch
    dispatch-Consistent close_event_fd event w clean v =
        elim (Bool-cases (event.fd == close_event_fd)) [
          | inl e ↦ rw e (emit-Consistent w v refl refl refl)
          | inr other ↦ elim (Option-cases (lookup event.fd w.channels_)) [
            | inl e ↦ rw (other, e) (emit-Consistent w v refl refl refl)
            | inr (id, e) ↦
                let (c, here, at_fd, on) = v.living event.fd id e in
                rw (dispatch-callbacks E program close_event_fd event id c w other e here, clean)
                  (callbacks-Consistent id event.fd event.readable event.writable w v)
          ]
        ]

    dispatch_all-Consistent :
        (close_event_fd : ℕ) (events : List Ready) (w : World K)
        → AreErrorFree events
        → Consistent E w
        → Consistent E (dispatch_all E program close_event_fd events w).0
    unfolding dispatch_all
    dispatch_all-Consistent close_event_fd [] w clean v = v
    dispatch_all-Consistent close_event_fd (event ∷ events) w clean v =
        after (dispatch E program close_event_fd event w)
          (dispatch-Consistent close_event_fd event w clean.0 v)
          (λ w' v'. dispatch_all-Consistent close_event_fd events w' clean.1 v')
      where
        after :
            (r : World K × Result (Unit {0}))
            → Consistent E r.0
            → ((w' : World K)
                → Consistent E w'
                → Consistent E (dispatch_all E program close_event_fd events w').0)
            → Consistent E (
                let after : World K × Result (Unit {0}) = elim r.1 [
                  | ok u ↦
                      if has_failed r.0.trace
                      then (r.0, ok tt)
                      else dispatch_all E program close_event_fd events r.0
                  | err e ↦ (r.0, err e)
                ] in
                after.0)
        after (w', ok u) v' rest = elim (Bool-cases (has_failed w'.trace)) [
          | inl e ↦ rw e v'
          | inr e ↦ rw e (rest w' v')
        ]
        after (w', err e) v' rest = v'

    -- A call of `poll` leaves a consistent loop consistent, whatever `epoll_wait` returns, if no
    -- event has EPOLLERR and what each coroutine does is careful in every consistent loop: events
    -- for both directions and channels that are dropped while their own callback runs included. So is
    -- the loop as it stands where an event for a descriptor that is not known any more fails the
    -- assertion, which ends the program and the batch.
    pub poll-Consistent :
        (close_event_fd eintr : ℕ) (waited : ℤ × ℕ) (events : List Ready) (w : World K)
        → AreErrorFree events
        → Consistent E w
        → Consistent E (poll E program close_event_fd eintr waited events w).0
    unfolding poll check_errno
    poll-Consistent close_event_fd eintr (nr_events, errno) events w clean v =
        elim (Bool-cases (is_negative nr_events)) [
          | inl n ↦ elim (Bool-cases (errno == eintr)) [ inl e ↦ rw (n, e) v | inr e ↦ rw (n, e) v ]
          | inr n ↦ rw n (dispatch_all-Consistent close_event_fd events w clean v)
        ]
