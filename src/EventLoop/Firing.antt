-- ===== src/EventLoop/Firing.antt =====
-- What `event_loop::poll` of examples/socket/event_loop.cc does for an event of a descriptor that
-- somebody waits for.
use ucxpp.Base.{
  ℕ, ◌≡◌, ◌≢◌, refl, ap, ◌∙◌, sym, List, true, false, Option, none, some, arith, ◌==◌, inl, inr,
  Option-cases,
}
use ucxpp.Base.Dict.{lookup, erase}
use ucxpp.Errors.{Result, ok}
use ucxpp.EventLoop.{Epoll, Channel, Interest, reads, writes, World, deregister}
use ucxpp.Channel.{readable_callback, writable_callback}
use ucxpp.EventLoop.Program.{Command, call}
use ucxpp.EventLoop.Polling.{Ready, branch, callbacks, release, dispatch}
use ucxpp.EventLoop.Consistent.{Consistent, deregister-ok, deregister-Consistent}
use ucxpp.EventLoop.Waits.{waits, update, callback_of, waiter_at, removed}

-- The flags of an event that epoll reports for a registration, where nothing went wrong.
abbrev pub IsFor : Interest → Ready → Type 0
IsFor reads event = (event.readable ≡ true) × (event.writable ≡ false) × (event.error ≡ false)
IsFor writes event = (event.readable ≡ false) × (event.writable ≡ true) × (event.error ≡ false)

module _ {K : Type 0} (E : Epoll K) (program : ℕ → World K → List Command) where
  -- What `poll` makes of the loop before the coroutine runs.
  abbrev pub taken : (id fd : ℕ) → World K → World K
  taken id fd w = record w {
    locked = some id;
    kernel = (E.del w.kernel fd).1;
    channels_ = erase fd w.channels_;
  }

  pub readable_callback-call :
      (id : ℕ) (c : Channel) (w : World K)
      → lookup id w.objects ≡ some c
      → c.has_loop ≡ true
      → readable_callback E (call E program) id w
        ≡ (call E program c.readable_callback_ (deregister E c.fd_ w).0, ok tt)
  unfolding readable_callback
  readable_callback-call id c w here on = ground (arith, deregister-ok E c.fd_ w)

  pub writable_callback-call :
      (id : ℕ) (c : Channel) (w : World K)
      → lookup id w.objects ≡ some c
      → c.has_loop ≡ true
      → writable_callback E (call E program) id w
        ≡ (call E program c.writable_callback_ (deregister E c.fd_ w).0, ok tt)
  unfolding writable_callback
  writable_callback-call id c w here on = ground (arith, deregister-ok E c.fd_ w)

  -- An event that leads to a channel that lives.
  pub dispatch-callbacks :
      (close_event_fd : ℕ) (event : Ready) (id : ℕ) (c : Channel) (w : World K)
      → (event.fd == close_event_fd) ≡ false
      → lookup event.fd w.channels_ ≡ some id
      → lookup id w.objects ≡ some c
      → dispatch E program close_event_fd event w
        ≡ callbacks E program id event.fd event.readable event.writable event.error w
  unfolding dispatch
  dispatch-callbacks close_event_fd event id c w other known here = rw (other, known, here) refl

  dispatch-reads :
      (close_event_fd : ℕ) (event : Ready) (id : ℕ) (c : Channel) (w : World K)
      → (event.fd == close_event_fd) ≡ false
      → lookup event.fd w.channels_ ≡ some id
      → lookup id w.objects ≡ some c
      → c.fd_ ≡ event.fd
      → c.has_loop ≡ true
      → IsFor reads event
      → dispatch E program close_event_fd event w
        ≡ (release E program id (call E program c.readable_callback_ (taken id event.fd w)), ok tt)
  unfolding dispatch callbacks branch
  dispatch-reads close_event_fd event id c w other known here fits on (r, wr, er) = ground (
    arith,
    readable_callback-call id c (record w { locked = some id }),
    deregister-ok E c.fd_ (record w { locked = some id }),
  )

  dispatch-writes :
      (close_event_fd : ℕ) (event : Ready) (id : ℕ) (c : Channel) (w : World K)
      → (event.fd == close_event_fd) ≡ false
      → lookup event.fd w.channels_ ≡ some id
      → lookup id w.objects ≡ some c
      → c.fd_ ≡ event.fd
      → c.has_loop ≡ true
      → IsFor writes event
      → dispatch E program close_event_fd event w
        ≡ (release E program id (call E program c.writable_callback_ (taken id event.fd w)), ok tt)
  unfolding dispatch callbacks branch
  dispatch-writes close_event_fd event id c w other known here fits on (r, wr, er) = ground (
    arith,
    writable_callback-call id c (record w { locked = some id }),
    deregister-ok E c.fd_ (record w { locked = some id }),
  )

  pub dispatch-for :
      (close_event_fd : ℕ) (event : Ready) (i : Interest) (id : ℕ) (c : Channel) (w : World K)
      → (event.fd == close_event_fd) ≡ false
      → lookup event.fd w.channels_ ≡ some id
      → lookup id w.objects ≡ some c
      → c.fd_ ≡ event.fd
      → c.has_loop ≡ true
      → IsFor i event
      → dispatch E program close_event_fd event w
        ≡ (release E program id (call E program (callback_of i c) (taken id event.fd w)), ok tt)
  dispatch-for close_event_fd event reads = dispatch-reads close_event_fd event
  dispatch-for close_event_fd event writes = dispatch-writes close_event_fd event

  pub taken-Consistent : (id fd : ℕ) (w : World K) → Consistent E w → Consistent E (taken id fd w)
  taken-Consistent id fd w v =
      let d = rw (deregister-ok E fd w) at (deregister-Consistent E fd w v) in
      record { known = d.known; living = d.living }

  pub taken-waits : (id fd : ℕ) (w : World K) → waits E (taken id fd w) ≡ update (waits E w) fd none
  taken-waits id fd w =
      ap (waits E) (sym (ap (λ (t : World K × Result (Unit {0})). t.0) (deregister-ok E fd w)))
      ∙ removed E fd w

  -- What the table says of a descriptor whose channel lives.
  pub waiting-callback :
      (fd : ℕ) (i : Interest) (callback : Option ℕ) (id : ℕ) (c : Channel) (w : World K)
      → lookup fd w.channels_ ≡ some id
      → lookup id w.objects ≡ some c
      → waits E w fd ≡ some (i, callback)
      → callback_of i c ≡ callback
  waiting-callback fd i callback id c w known here waiting =
      elim (Option-cases (E.interest w.kernel fd)) [
        | inl e ↦ ground (arith, e)
        | inr (j, e) ↦
            let at : waiter_at (some j) (some id) w.objects ≡ some (i, callback) =
              rw (e, known) at waiting in
            let found : waiter_at (some j) (some id) w.objects ≡ some (j, callback_of j c) =
              rw (waiter_at, here) refl in
            let both = sym found ∙ at in
            let same : j ≡ i = ground arith in ap (λ t. callback_of t c) (sym same) ∙ ground arith
      ]

  waiting-known :
      (fd : ℕ) (i : Interest) (callback : Option ℕ) (w : World K)
      → Consistent E w
      → waits E w fd ≡ some (i, callback)
      → lookup fd w.channels_ ≢ none
  waiting-known fd i callback w v waiting e = ground (arith, v.known fd)

  -- In a consistent loop an event for what somebody waits for, without an error, ends this wait and
  -- no other one, resumes the coroutine that waits, and gives the channel back only behind it; the
  -- loop in which the coroutine is resumed is consistent again, and nobody waits for the descriptor
  -- any more.
  pub dispatch_fires :
      (close_event_fd : ℕ) (event : Ready) (i : Interest) (callback : Option ℕ) (w : World K)
      → (event.fd == close_event_fd) ≡ false
      → Consistent E w
      → waits E w event.fd ≡ some (i, callback)
      → IsFor i event
      → (id : ℕ) × (dispatch E program close_event_fd event w
          ≡ (release E program id (call E program callback (taken id event.fd w)), ok tt))
        × (waits E (taken id event.fd w) ≡ update (waits E w) event.fd none)
        × Consistent E (taken id event.fd w)
  dispatch_fires close_event_fd event i callback w other v waiting fits =
      found (lookup event.fd w.channels_) refl
    where
      found :
          (o : Option ℕ)
          → lookup event.fd w.channels_ ≡ o
          → (id : ℕ) × (dispatch E program close_event_fd event w
              ≡ (release E program id (call E program callback (taken id event.fd w)), ok tt))
            × (waits E (taken id event.fd w) ≡ update (waits E w) event.fd none)
            × Consistent E (taken id event.fd w)
      found none e = absurd (waiting-known event.fd i callback w v waiting e)
      found (some id) e =
          let (c, here, at_fd, on) = v.living event.fd id e in
          (
            id,
            dispatch-for close_event_fd event i id c w other e here at_fd on fits
                ∙ ap (λ o. (release E program id (call E program o (taken id event.fd w)), ok tt))
                    (waiting-callback event.fd i callback id c w e here waiting),
            taken-waits id event.fd w,
            taken-Consistent id event.fd w v,
          )
