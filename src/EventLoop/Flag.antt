-- ===== src/EventLoop/Flag.antt =====
-- The flag of `event_loop::poll` of examples/socket/event_loop.cc: nothing but the close event sets it.
use mathlib.Core.Path.{subst⁻¹}
use ucxpp.Base.{
  ℕ, ◌≡◌, refl, ap, sym, ◌∙◌, List, [], ◌∷◌, Bool, true, false, ◌||◌, Option, none, some, ◌==◌,
  if◌then◌else◌, arith, Bool-cases, Option-cases, inl, inr,
}
use ucxpp.Base.Dict.{lookup, erase}
use ucxpp.Errors.{Result, ok, err, check_errno}
use ucxpp.EventLoop.{
  Epoll, Channel, Interest, World, undefined, has_failed, emit, resumes, register_channel,
  register_read, register_write,
}
use ucxpp.Channel.{
  on_loop, wait_readable, wait_writable, set_readable_callback, set_writable_callback,
  set_event_loop, channel_destroy, readable_callback, writable_callback,
}
use ucxpp.EventLoop.Program.{
  Command, opens, awaits_readable, awaits_writable, drops, leaves, exec, exec_all, call, caught,
  is_locked,
}
use ucxpp.EventLoop.Polling.{Ready, branch, callbacks, release, dispatch, dispatch_all}
use ucxpp.EventLoop.Consistent.{deregister-ok}
use ucxpp.EventLoop.Kept.{
  channel_destroy-missing, channel_destroy-on_loop, channel_destroy-off_loop,
}
use ucxpp.EventLoop.Firing.{readable_callback-call, writable_callback-call}
use ucxpp.EventLoop.Steady.{
  is_on_loop, is_on_loop-channel, readable_callback-undefined, writable_callback-undefined,
}

true≢false : true ≡ false → ⊥
true≢false h = cc

or_swap : (a b c : Bool) → (a || (b || c)) ≡ ((b || a) || c)
or_swap true true c = refl
or_swap true false c = refl
or_swap false true c = refl
or_swap false false c = refl

module _ {K : Type 0} where
  -- The flag is as before.
  abbrev Same : World K → World K → Type 0
  Same w w' = w'.close_triggered ≡ w.close_triggered

  -- So is it behind an operation that returns.
  abbrev Calm : World K → World K × Result (Unit {0}) → Type 0
  Calm w r = (r.1 ≡ ok tt) × Same w r.0

  on_loop-Same :
      (id : ℕ) (f : Channel → World K → World K × Result (Unit {0})) (w : World K)
      → ((c : Channel) → Same w (f c w).0)
      → Same w (on_loop id f w).0
  on_loop-Same id f w h = elim (Option-cases (lookup id w.objects)) [
    | inl e ↦ rw (on_loop, e) refl
    | inr (c, e) ↦ rw (on_loop, e) (either c.has_loop (f c w) (h c))
  ]
    where
      either :
          (b : Bool) (r : World K × Result (Unit {0}))
          → Same w r.0
          → Same w (if b then r else (emit undefined w, ok tt)).0
      either true r h = h
      either false r h = refl

  caught-Same : (w : World K) (r : World K × Result (Unit {0})) → Same w r.0 → Same w (caught r)
  caught-Same w (w', ok u) h = h
  caught-Same w (w', err e) h = h

  module _ (E : Epoll K) where
    register_channel-Same :
        (id fd : ℕ) (i : Interest) (w : World K) → Same w (register_channel E id fd i w).0
    unfolding register_channel check_errno
    register_channel-Same id fd i w = ground arith

    wait_readable-Same : (id : ℕ) (w : World K) → Same w (wait_readable E id w).0
    unfolding wait_readable register_read
    wait_readable-Same id w =
        on_loop-Same id (λ c. register_read E id c.fd_) w (λ c. register_channel-Same id c.fd_ _ w)

    wait_writable-Same : (id : ℕ) (w : World K) → Same w (wait_writable E id w).0
    unfolding wait_writable register_write
    wait_writable-Same id w =
        on_loop-Same id (λ c. register_write E id c.fd_) w (λ c. register_channel-Same id c.fd_ _ w)

    channel_destroy-Same : (id : ℕ) (w : World K) → Same w (channel_destroy E id w)
    channel_destroy-Same id w = elim (Option-cases (lookup id w.objects)) [
      | inl e ↦ rw (channel_destroy-missing E id w e) refl
      | inr (c, here) ↦ elim (Bool-cases c.has_loop) [
        | inl on ↦
            rw (channel_destroy-on_loop E id c w here on, deregister-ok E c.fd_ w) (ground arith)
        | inr off ↦ rw (channel_destroy-off_loop E id c w here off) refl
      ]
    ]

    exec-Same : (c : Command) (w : World K) → Same w (exec E c w)
    unfolding exec set_readable_callback set_writable_callback set_event_loop
    exec-Same (opens id fd) w = refl
    exec-Same (awaits_readable id coroutine) w =
        caught-Same w _ (wait_readable-Same id (set_readable_callback id (some coroutine) w))
    exec-Same (awaits_writable id coroutine) w =
        caught-Same w _ (wait_writable-Same id (set_writable_callback id (some coroutine) w))
    exec-Same (drops id) w = elim (Bool-cases (is_locked id w)) [
      | inl e ↦ rw e refl
      | inr e ↦ rw e (channel_destroy-Same id w)
    ]
    exec-Same (leaves id) w = refl

    exec_all-Same : (cs : List Command) (w : World K) → Same w (exec_all E cs w)
    unfolding exec_all
    exec_all-Same [] w = refl
    exec_all-Same (c ∷ cs) w = exec_all-Same cs (exec E c w) ∙ exec-Same c w

    module _ (program : ℕ → World K → List Command) where
      call-Same : (callback : Option ℕ) (w : World K) → Same w (call E program callback w)
      unfolding call
      call-Same none w = refl
      call-Same (some coroutine) w =
          exec_all-Same (program coroutine _) (emit (resumes coroutine) w)

      readable_callback-Calm :
          (id : ℕ) (w : World K) → Calm w (readable_callback E (call E program) id w)
      readable_callback-Calm id w = elim (Bool-cases (is_on_loop E program id w)) [
        | inl on ↦
            let (c, here, looped) = is_on_loop-channel E program id w on in
            rw (readable_callback-call E program id c w here looped, deregister-ok E c.fd_ w)
              (
                refl,
                call-Same c.readable_callback_ (record w {
                  kernel = (E.del w.kernel c.fd_).1;
                  channels_ = erase c.fd_ w.channels_;
                }),
              )
        | inr off ↦ rw (readable_callback-undefined E program id w off) (refl, refl)
      ]

      writable_callback-Calm :
          (id : ℕ) (w : World K) → Calm w (writable_callback E (call E program) id w)
      writable_callback-Calm id w = elim (Bool-cases (is_on_loop E program id w)) [
        | inl on ↦
            let (c, here, looped) = is_on_loop-channel E program id w on in
            rw (writable_callback-call E program id c w here looped, deregister-ok E c.fd_ w)
              (
                refl,
                call-Same c.writable_callback_ (record w {
                  kernel = (E.del w.kernel c.fd_).1;
                  channels_ = erase c.fd_ w.channels_;
                }),
              )
        | inr off ↦ rw (writable_callback-undefined E program id w off) (refl, refl)
      ]

      branch-Calm :
          (run : World K → World K × Result (Unit {0})) (ready error : Bool) (fd : ℕ) (w : World K)
          → Calm w (run w)
          → Calm w (branch E program run ready error fd w)
      unfolding branch
      branch-Calm run false false fd w h = (refl, refl)
      branch-Calm run true false fd w (done, same) = rw done (refl, same)
      branch-Calm run false true fd w (done, same) = rw done (refl, same)
      branch-Calm run true true fd w (done, same) = rw done (refl, same)

      release-Same : (id : ℕ) (w : World K) → Same w (release E program id w)
      unfolding release
      release-Same id w = elim (Bool-cases w.doomed) [
        | inl e ↦ rw e (channel_destroy-Same id (record w { locked = none; doomed = false }))
        | inr e ↦ rw e refl
      ]

      callbacks-Calm :
          (id fd : ℕ) (readable writable error : Bool) (w : World K)
          → Calm w (callbacks E program id fd readable writable error w)
      unfolding callbacks
      callbacks-Calm id fd readable writable error w =
          let held : World K = record w { locked = some id } in
          let (done, same) =
            branch-Calm (readable_callback E (call E program) id) readable error fd held
              (readable_callback-Calm id held) in
          let first : World K =
            (branch E program (readable_callback E (call E program) id) readable error fd held).0 in
          let (done', same') =
            branch-Calm (writable_callback E (call E program) id) writable error fd first
              (writable_callback-Calm id first) in
          let second : World K =
            (branch E program (writable_callback E (call E program) id) writable error fd
              first).0 in
          rw (callbacks, done) (done', release-Same id second ∙ same' ∙ same)

      -- Whether the close event is in a batch.
      abbrev pub has_close : (close_event_fd : ℕ) → List Ready → Bool
      has_close close_event_fd [] = false
      has_close close_event_fd (event ∷ events) =
          event.fd == close_event_fd || has_close close_event_fd events

      dispatch-flag :
          (close_event_fd : ℕ) (event : Ready) (w : World K)
          → let r = dispatch E program close_event_fd event w in
            (r.1 ≡ ok tt)
            × (r.0.close_triggered ≡ (event.fd == close_event_fd || w.close_triggered))
      unfolding dispatch
      dispatch-flag close_event_fd event w = elim (Bool-cases (event.fd == close_event_fd)) [
        | inl e ↦ rw e (refl, refl)
        | inr other ↦ elim (Option-cases (lookup event.fd w.channels_)) [
          | inl e ↦ rw (other, e) (refl, refl)
          | inr (id, e) ↦ elim (Option-cases (lookup id w.objects)) [
            | inl f ↦ rw (other, e, f) (refl, refl)
            | inr (c, f) ↦
                rw (other, e, f)
                  (callbacks-Calm id event.fd event.readable event.writable event.error w)
          ]
        ]
      ]

      -- Behind an event the batch goes on, if no assertion has failed.
      dispatch_all-step :
          (close_event_fd : ℕ) (event : Ready) (events : List Ready) (w : World K)
          → let w' = (dispatch E program close_event_fd event w).0 in
            dispatch_all E program close_event_fd (event ∷ events) w ≡ (
              if has_failed w'.trace
              then (w', ok tt)
              else dispatch_all E program close_event_fd events w')
      unfolding dispatch_all
      dispatch_all-step close_event_fd event events w =
          let (done, flag) = dispatch-flag close_event_fd event w in rw (dispatch_all, done) refl

      -- What is known of a batch in which no assertion has failed.
      abbrev pub Flagged : World K × Result (Unit {0}) → Bool → Type 0
      Flagged r closing =
          has_failed r.0.trace ≡ false → (r.1 ≡ ok tt) × (r.0.close_triggered ≡ closing)

      pub dispatch_all-flag :
          (close_event_fd : ℕ) (events : List Ready) (w : World K)
          → Flagged
              (dispatch_all E program close_event_fd events w)
              (has_close close_event_fd events || w.close_triggered)
      unfolding dispatch_all
      dispatch_all-flag close_event_fd [] w = λ sound. (refl, refl)
      dispatch_all-flag close_event_fd (event ∷ events) w =
          let w' = (dispatch E program close_event_fd event w).0 in
          let (done, flag) = dispatch-flag close_event_fd event w in
          let step = dispatch_all-step close_event_fd event events w in
          let closing = has_close close_event_fd (event ∷ events) || w.close_triggered in
          elim (Bool-cases (has_failed w'.trace)) [
            | inl failed ↦
                let whole : dispatch_all E program close_event_fd (event ∷ events) w ≡ (w', ok tt) =
                  step ∙ rw failed refl in
                subst⁻¹ (λ r. Flagged r closing) whole
                  (λ sound. absurd (true≢false (sym failed ∙ sound)))
            | inr fine ↦
                let whole : dispatch_all E program close_event_fd (event ∷ events) w
                    ≡ dispatch_all E program close_event_fd events w' =
                  step ∙ rw fine refl in
                subst⁻¹ (λ r. Flagged r closing) whole
                  (λ sound.
                    let (done', flag') = dispatch_all-flag close_event_fd events w' sound in
                    (
                      done',
                      flag'
                          ∙ ap (λ (b : Bool). has_close close_event_fd events || b) flag
                          ∙ or_swap (has_close close_event_fd events) (event.fd == close_event_fd)
                              w.close_triggered,
                    ))
          ]
