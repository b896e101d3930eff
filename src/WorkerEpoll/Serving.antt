-- ===== src/WorkerEpoll/Serving.antt =====
-- examples/worker_epoll.cc on the event loop: what one event of the worker's descriptor does.
use mathlib.Core.Path.{fun_ext}
use ucxpp.Base.{
  ℕ, ◌≡◌, refl, ap, ◌∙◌, List, [], ◌∷◌, true, false, none, some, ◌==◌, ==_iff, if◌then◌else◌,
  Bool-cases, inl, inr, arith,
}
use ucxpp.Base.Int.{pos, is_negative}
use ucxpp.Base.Dict.{lookup, insert, adjust, lookup-insert, lookup-adjust, lookup-erase}
use ucxpp.Errors.{Status, Result, ok, err, check_errno}
use ucxpp.EventLoop.{Epoll, Channel, reads, World, emit, resumes, register_channel}
use ucxpp.EventLoop.Program.{
  Command, opens, awaits_readable, drops, leaves, exec, exec_all, call, caught,
}
use ucxpp.EventLoop.Polling.{Ready, dispatch, release}
use ucxpp.EventLoop.Consistent.{Consistent, IsIdle, register-Consistent, interest-del_any}
use ucxpp.EventLoop.Kept.{
  adjusted-IsIdle, adjust-Consistent, wait_readable-idle, channel_destroy-off_loop,
  loopless-unknown, channel_destroy-Consistent, exec-Consistent,
}
use ucxpp.EventLoop.Waits.{
  Waits, waits, update, opened, registered, adjusted, gone-waits, caught-waits,
}
use ucxpp.EventLoop.Firing.{
  IsFor, taken, dispatch-for, taken-Consistent, taken-waits, waiting-callback,
}
use ucxpp.Channel.{set_readable_callback, set_event_loop, channel_new}
use ucxpp.Worker.{Worker}
use ucxpp.WorkerEpoll as Callback
use ucxpp.WorkerEpoll.{Next, wait_readable, unregister, readable_callback}
use ucxpp.WorkerEpoll.Draining.{is_idle}
use ucxpp.WorkerEpoll.Registering.{register_loop, callback_commands, worker_program}

module _ {K : Type 0} (E : Epoll K) where
  -- The loop when the callback begins.
  abbrev pub begun : (id fd callback : ℕ) → World K → World K
  begun id fd callback w = emit (resumes callback) (taken E (λ c w. []) id fd w)

  register-doomed :
      (id fd : ℕ) (w : World K) → (register_channel E id fd reads w).0.doomed ≡ w.doomed
  unfolding register_channel check_errno
  register-doomed id fd w = ground arith

  release_kept :
      (program : ℕ → World K → List Command) (id : ℕ) (w : World K)
      → w.doomed ≡ false
      → release E program id w ≡ record w { locked = none; doomed = false }
  unfolding release
  release_kept program id w h = rw h refl

  caught-doomed : (r : World K × Result (Unit {0})) → (caught r).doomed ≡ r.0.doomed
  caught-doomed (w, ok u) = refl
  caught-doomed (w, err e) = refl

  -- Waiting again, for a channel whose descriptor is free.
  waits_again :
      (id callback : ℕ) (c : Channel) (w : World K)
      → IsIdle E id c w
      → Consistent E w
      → is_negative (E.add w.kernel c.fd_ reads).0.0 ≡ false
      → (waits E (exec E (awaits_readable id callback) w)
          ≡ update (waits E w) c.fd_ (some (reads, some callback)))
        × ((exec E (awaits_readable id callback) w).doomed ≡ w.doomed)
  unfolding exec set_readable_callback
  waits_again id callback c w s v accepts =
      let g = λ (c : Channel). record c { readable_callback_ = some callback } in
      let s' = adjusted-IsIdle E id c g w refl refl s in
      let v' = adjust-Consistent E id c g w s v in
      rw (caught-waits, caught-doomed, wait_readable-idle E id (g c) _ s')
        (
          fun_ext λ fd.
              registered E id (g c) reads _ s' v' accepts fd
              ∙ ap (λ o. if fd == c.fd_ then some (reads, some callback) else o)
                  (adjusted E id c g w s v fd),
          register-doomed id c.fd_ _,
        )

  -- A worker that is registered with a consistent loop, by a channel at a fresh address, is waited for,
  -- and the loop stays consistent, if nobody waits for its descriptor and epoll accepts it.
  pub register_loop-waits :
      (worker : Worker) (fd id callback : ℕ) (w : World K)
      → worker.event_fd_ ≡ pos fd
      → lookup id w.objects ≡ none
      → Consistent E w
      → E.interest w.kernel fd ≡ none
      → is_negative (E.add w.kernel fd reads).0.0 ≡ false
      → let w' = (register_loop E worker id callback w).0 in
        Consistent E w' × (waits E w' ≡ update (waits E w) fd (some (reads, some callback)))
  unfolding register_loop exec
  register_loop-waits worker fd id callback w has_fd fresh v free accepts =
      let c = channel_new fd in
      let on = λ (c : Channel). record c { has_loop = true } in
      let g = λ (c : Channel). record c { readable_callback_ = some callback } in
      let w1 = record w { objects = insert id c w.objects } in
      let s1 : IsIdle E id c w1 = record {
        here = ground (arith, lookup-insert id id c w.objects);
        on_loop = refl;
        free = free;
      } in
      let v1 : Consistent E w1 = exec-Consistent E (opens id fd) w fresh v in
      let s2 = adjusted-IsIdle E id c on w1 refl refl s1 in
      let v2 = adjust-Consistent E id c on w1 s1 v1 in
      let s3 = adjusted-IsIdle E id (on c) g _ refl refl s2 in
      let v3 = adjust-Consistent E id (on c) g _ s2 v2 in
      rw (has_fd, register_loop, wait_readable-idle E id (g (on c)) _ s3)
        (
          register-Consistent E id (g (on c)) reads _ s3 v3,
          fun_ext λ fd'.
              registered E id (g (on c)) reads _ s3 v3 accepts fd'
              ∙ ap (λ o. if fd' == fd then some (reads, some callback) else o)
                  (adjusted E id (on c) g _ s2 v2 fd'
                    ∙ adjusted E id c on w1 s1 v1 fd'
                    ∙ opened E id c w fresh v fd'),
        )

  -- Leaving the loop.
  leaves_loop :
      (program : ℕ → World K → List Command) (id : ℕ) (c : Channel) (w : World K)
      → IsIdle E id c w
      → Consistent E w
      → w.locked ≡ some id
      → let w' = release E program id (exec_all E (leaves id ∷ drops id ∷ []) w) in
        (waits E w' ≡ waits E w)
        × Consistent E w'
        × (lookup id w'.objects ≡ none)
        × (w'.trace ≡ w.trace)
  unfolding exec_all exec set_event_loop release
  leaves_loop program id c w s v held =
      let off = λ (c : Channel). record c { has_loop = false } in
      let left = record w { objects = adjust id off w.objects; locked = none; doomed = false } in
      let here : lookup id (adjust id off w.objects) ≡ some (off c) =
        ground (arith, lookup-adjust id id off w.objects, s.here) in
      let v' : Consistent E left =
        let d = adjust-Consistent E id c off w s v in
        record { known = d.known; living = d.living } in
      rw (held, (==_iff id id).1 refl, channel_destroy-off_loop E id (off c) left here refl)
        (
          gone-waits E id left (λ fd. loopless-unknown E id (off c) left fd here refl v')
              ∙ fun_ext (λ fd. adjusted E id c off w s v fd),
          rw (channel_destroy-off_loop E id (off c) left here refl) at
              (channel_destroy-Consistent E id left v'),
          ground (arith, lookup-erase id id (adjust id off w.objects)),
          refl,
        )

  module _ (program : ℕ → World K → List Command) (id callback : ℕ) (worker : Worker)
      (counts : List ℕ) (statuses : List Status) (use_count : ℕ) where
    abbrev pub next : Next
    next = (readable_callback worker counts statuses use_count).1

    abbrev pub served : ℕ → World K → List Command
    served = worker_program id callback next program

    call-callback :
        (w : World K)
        → call E served (some callback) w
          ≡ exec_all E (callback_commands id callback next) (emit (resumes callback) w)
    unfolding call worker_program
    call-callback w = rw ((==_iff callback callback).1 refl) refl

    -- What one event comes to, by what the callback does behind its calls.
    abbrev pub Served : Next → (fd : ℕ) → (before after : World K) → Type 0
    Served wait_readable fd w w' = waits E w' ≡ waits E w
    Served unregister fd w w' =
        (waits E w' ≡ update (waits E w) fd none) × (lookup id w'.objects ≡ none)
    Served _ fd w w' = ⊥

    released :
        (w : World K)
        → w.doomed ≡ false
        → Consistent E w
        → Consistent E (release E served id w) × (waits E (release E served id w) ≡ waits E w)
    released w alive v =
        rw (release_kept served id w alive) (record { known = v.known; living = v.living }, refl)

    -- What the callback does, from its beginning to the end of the event.
    finishing :
        (n : Next) (fd : ℕ) (c : Channel) (w0 w : World K)
        → is_idle n ≡ true
        → IsIdle E id c w
        → Consistent E w
        → w.locked ≡ some id
        → w.doomed ≡ false
        → is_negative (E.add w.kernel c.fd_ reads).0.0 ≡ false
        → c.fd_ ≡ fd
        → waits E w ≡ update (waits E w0) fd none
        → waits E w0 fd ≡ some (reads, some callback)
        → let w' = release E served id (exec_all E (callback_commands id callback n) w) in
          Consistent E w' × Served n fd w0 w'
    unfolding callback_commands exec_all
    finishing wait_readable fd c w0 w idle s v held alive accepts at_fd taken_out waited =
        let (table, doomed) = waits_again id callback c w s v accepts in
        let (v', same) =
          released (exec E (awaits_readable id callback) w) (doomed ∙ alive)
            (exec-Consistent E (awaits_readable id callback) w (c, s) v) in
        (
          v',
          same
              ∙ table
              ∙ fun_ext (λ fd'. rw at_fd (
                  ap (λ (f : Waits). update f fd (some (reads, some callback)) fd') taken_out
                  ∙ restored fd')),
        )
      where
        restored :
            (fd' : ℕ)
            → update (update (waits E w0) fd none) fd (some (reads, some callback)) fd'
              ≡ waits E w0 fd'
        restored fd' = elim (Bool-cases (fd' == fd)) [
          | inl e ↦ rw (e, (==_iff fd' fd).0 e, waited) refl
          | inr e ↦ rw e refl
        ]
    finishing unregister fd c w0 w idle s v held alive accepts at_fd taken_out waited =
        let (table, v', missing, _) = leaves_loop served id c w s v held in
        (v', (table ∙ taken_out, missing))
    finishing Callback.none_yet fd c w0 w idle s v held alive accepts at_fd taken_out waited = cc
    finishing (Callback.throws e) fd c w0 w idle s v held alive accepts at_fd taken_out waited = cc

    -- If the callback of a worker comes out of its loop, one event of the worker's descriptor leaves the
    -- event loop consistent, and all that wait keep waiting; the worker itself is waited for again if
    -- the callback chose so, or nobody waits for its descriptor any more and its channel is gone. The
    -- loop is consistent before, with no channel to be dropped, and epoll accepts the descriptor.
    pub dispatch_serves :
        (close_event_fd : ℕ) (event : Ready) (w : World K)
        → (event.fd == close_event_fd) ≡ false
        → Consistent E w
        → w.doomed ≡ false
        → lookup event.fd w.channels_ ≡ some id
        → waits E w event.fd ≡ some (reads, some callback)
        → IsFor reads event
        → is_idle next ≡ true
        → is_negative (E.add (E.del w.kernel event.fd).1 event.fd reads).0.0 ≡ false
        → let w' = (dispatch E served close_event_fd event w).0 in
          Consistent E w' × Served next event.fd w w'
    dispatch_serves close_event_fd event w other v alive known waited fits idle accepts =
        let (c, here, at_fd, on) = v.living event.fd id known in
        let started = taken-Consistent E served id event.fd w v in
        let w1 = begun id event.fd callback w in
        let v1 : Consistent E w1 = record { known = started.known; living = started.living } in
        let s1 : IsIdle E id c w1 = record {
          here = here;
          on_loop = on;
          free =
              interest-del_any E w.kernel event.fd c.fd_
              ∙ rw (at_fd, (==_iff event.fd event.fd).1 refl) refl;
        } in
        rw
          (
            dispatch-for E served close_event_fd event reads id c w other known here at_fd on fits,
            waiting-callback E served event.fd reads (some callback) id c w known here waited,
            call-callback (taken E served id event.fd w),
          )
          (finishing next event.fd c w w1 idle s1 v1 refl alive (rw at_fd accepts) at_fd
            (taken-waits E served id event.fd w) waited)
