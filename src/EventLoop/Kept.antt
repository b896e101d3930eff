-- ===== src/EventLoop/Kept.antt =====
-- Careful programs keep the loop of examples/socket/event_loop.cc consistent.
use ucxpp.Base.{
  ℕ, ◌≡◌, ◌≢◌, refl, ap, ◌∙◌, sym, List, [], ◌∷◌, true, false, none, some, arith, ◌==◌,
  if◌then◌else◌, Bool-cases, inl, inr, Option-cases,
}
use ucxpp.Base.Dict.{lookup, insert, erase, adjust, lookup-insert, lookup-erase, lookup-adjust}
use ucxpp.Errors.{Result, ok, err}
use ucxpp.EventLoop.{
  Epoll, Channel, reads, writes, World, emit, closes, undefined, register_channel, deregister,
}
use ucxpp.Channel.{
  channel_new, set_readable_callback, set_writable_callback, set_event_loop, wait_readable,
  wait_writable, channel_destroy,
}
use ucxpp.EventLoop.Program.{
  Command, opens, awaits_readable, awaits_writable, drops, leaves, exec, exec_all, caught,
  is_locked,
}
use ucxpp.EventLoop.Consistent.{
  Consistent, IsIdle, deregister-ok, deregister-Consistent, register-Consistent, objects-Consistent,
}

module _ {K : Type 0} (E : Epoll K) where
  -- What a program has to see to: addresses are fresh, a channel is waited for only while nothing waits
  -- for its descriptor, and it is taken out of the loop only then.
  abbrev pub IsCareful : World K → Command → Type 0
  IsCareful w (opens id fd) = lookup id w.objects ≡ none
  IsCareful w (awaits_readable id coroutine) = (c : Channel) × IsIdle E id c w
  IsCareful w (awaits_writable id coroutine) = (c : Channel) × IsIdle E id c w
  IsCareful w (drops id) = Unit
  IsCareful w (leaves id) = (c : Channel) × IsIdle E id c w

  abbrev pub AreCareful : World K → List Command → Type 0
  AreCareful w [] = Unit
  AreCareful w (c ∷ cs) = IsCareful w c × AreCareful (exec E c w) cs

  -- A channel whose descriptor is free is not the one that the map knows by any descriptor.
  pub idle-unknown :
      (id : ℕ) (c : Channel) (w : World K) (fd : ℕ)
      → IsIdle E id c w
      → Consistent E w
      → lookup fd w.channels_ ≢ some id
  idle-unknown id c w fd s v h =
      let (c', here, fits, on) = v.living fd id h in
      let same : c' ≡ c = cc (here, s.here) in
      let e : c.fd_ ≡ fd = ap (λ (t : Channel). t.fd_) (sym same) ∙ fits in
      ground (arith, v.known c.fd_, v.known fd, s.free)

  -- A change of a channel that the map does not know.
  pub adjust-Consistent :
      (id : ℕ) (c : Channel) (f : Channel → Channel) (w : World K)
      → IsIdle E id c w
      → Consistent E w
      → Consistent E (record w { objects = adjust id f w.objects })
  adjust-Consistent id c f w s v =
      objects-Consistent E w (adjust id f w.objects)
        (λ fd id' c' h here. (
          c',
          ground (arith, lookup-adjust id id' f w.objects, idle-unknown id c w fd s v),
          refl,
          refl,
        ))
        v

  -- The channel once its callback is set.
  pub adjusted-IsIdle :
      (id : ℕ) (c : Channel) (f : Channel → Channel) (w : World K)
      → ((f c).fd_ ≡ c.fd_)
      → ((f c).has_loop ≡ c.has_loop)
      → IsIdle E id c w
      → IsIdle E id (f c) (record w { objects = adjust id f w.objects })
  adjusted-IsIdle id c f w d l s = record {
    here = ground (arith, lookup-adjust id id f w.objects, s.here);
    on_loop = l ∙ s.on_loop;
    free = ap (E.interest w.kernel) d ∙ s.free;
  }

  caught-Consistent : (r : World K × Result (Unit {0})) → Consistent E r.0 → Consistent E (caught r)
  caught-Consistent (w, ok u) v = v
  caught-Consistent (w, err e) v = record { known = v.known; living = v.living }

  pub wait_readable-idle :
      (id : ℕ) (c : Channel) (w : World K)
      → IsIdle E id c w
      → wait_readable E id w ≡ register_channel E id c.fd_ reads w
  unfolding wait_readable
  wait_readable-idle id c w s = ground (arith, s.here, s.on_loop)

  pub wait_writable-idle :
      (id : ℕ) (c : Channel) (w : World K)
      → IsIdle E id c w
      → wait_writable E id w ≡ register_channel E id c.fd_ writes w
  unfolding wait_writable
  wait_writable-idle id c w s = ground (arith, s.here, s.on_loop)

  awaits_readable-Consistent :
      (id coroutine : ℕ) (c : Channel) (w : World K)
      → IsIdle E id c w
      → Consistent E w
      → Consistent E (exec E (awaits_readable id coroutine) w)
  unfolding exec set_readable_callback
  awaits_readable-Consistent id coroutine c w s v =
      let f = λ (c : Channel). record c { readable_callback_ = some coroutine } in
      let s' = adjusted-IsIdle id c f w refl refl s in
      caught-Consistent (wait_readable E id (set_readable_callback id (some coroutine) w)) (
        rw (wait_readable-idle id (f c) _ s')
          (register-Consistent E id (f c) reads _ s' (adjust-Consistent id c f w s v)))

  awaits_writable-Consistent :
      (id coroutine : ℕ) (c : Channel) (w : World K)
      → IsIdle E id c w
      → Consistent E w
      → Consistent E (exec E (awaits_writable id coroutine) w)
  unfolding exec set_writable_callback
  awaits_writable-Consistent id coroutine c w s v =
      let f = λ (c : Channel). record c { writable_callback_ = some coroutine } in
      let s' = adjusted-IsIdle id c f w refl refl s in
      caught-Consistent (wait_writable E id (set_writable_callback id (some coroutine) w)) (
        rw (wait_writable-idle id (f c) _ s')
          (register-Consistent E id (f c) writes _ s' (adjust-Consistent id c f w s v)))

  -- The destructor, case by case.
  abbrev pub gone : (id : ℕ) → World K → World K
  gone id w = record w { objects = erase id w.objects }

  abbrev pub closed : Channel → World K → World K
  closed c w = emit (closes c.fd_) (if c.fd_ == 0 then emit undefined w else w)

  pub channel_destroy-on_loop :
      (id : ℕ) (c : Channel) (w : World K)
      → lookup id w.objects ≡ some c
      → c.has_loop ≡ true
      → channel_destroy E id w ≡ gone id (closed c (deregister E c.fd_ w).0)
  unfolding channel_destroy
  channel_destroy-on_loop id c w here on = ground (arith, deregister-ok E c.fd_ w)

  -- A channel that leaves is known by no descriptor.
  gone-Consistent :
      (id : ℕ) (w : World K)
      → ((fd : ℕ) → lookup fd w.channels_ ≢ some id)
      → Consistent E w
      → Consistent E (gone id w)
  gone-Consistent id w unknown v =
      objects-Consistent E w (erase id w.objects)
        (λ fd id' c h here.
          (c, ground (arith, lookup-erase id id' w.objects, unknown fd), refl, refl))
        v

  pub channel_destroy-off_loop :
      (id : ℕ) (c : Channel) (w : World K)
      → lookup id w.objects ≡ some c
      → c.has_loop ≡ false
      → channel_destroy E id w ≡ gone id w
  unfolding channel_destroy
  channel_destroy-off_loop id c w here off = ground arith

  pub channel_destroy-missing :
      (id : ℕ) (w : World K) → lookup id w.objects ≡ none → channel_destroy E id w ≡ w
  unfolding channel_destroy
  channel_destroy-missing id w e = ground arith

  closed-Consistent : (c : Channel) (w : World K) → Consistent E w → Consistent E (closed c w)
  closed-Consistent c w v = elim (Bool-cases (c.fd_ == 0)) [
    | inl e ↦ rw e (record { known = v.known; living = v.living })
    | inr e ↦ rw e (record { known = v.known; living = v.living })
  ]

  pub closed-channels_ : (c : Channel) (w : World K) → (closed c w).channels_ ≡ w.channels_
  closed-channels_ c w = ground arith

  -- Once its descriptor is removed, no descriptor leads to a channel.
  pub deregister-unknown :
      (id : ℕ) (c : Channel) (w : World K) (fd : ℕ)
      → lookup id w.objects ≡ some c
      → Consistent E w
      → lookup fd (erase c.fd_ w.channels_) ≢ some id
  deregister-unknown id c w fd here v h =
      let before : lookup fd w.channels_ ≡ some id =
        ground (arith, lookup-erase c.fd_ fd w.channels_) in
      let (c', here', fits, on) = v.living fd id before in
      let same : c' ≡ c = cc (here, here') in
      let e : c.fd_ ≡ fd = ap (λ (t : Channel). t.fd_) (sym same) ∙ fits in
      ground (arith, lookup-erase c.fd_ fd w.channels_)

  pub loopless-unknown :
      (id : ℕ) (c : Channel) (w : World K) (fd : ℕ)
      → lookup id w.objects ≡ some c
      → c.has_loop ≡ false
      → Consistent E w
      → lookup fd w.channels_ ≢ some id
  loopless-unknown id c w fd here off v h =
      let (c', here', fits, on) = v.living fd id h in
      let same : c' ≡ c = cc (here, here') in
      let e : c.has_loop ≡ true = ap (λ (t : Channel). t.has_loop) (sym same) ∙ on in cc

  pub channel_destroy-Consistent :
      (id : ℕ) (w : World K) → Consistent E w → Consistent E (channel_destroy E id w)
  channel_destroy-Consistent id w v = elim (Option-cases (lookup id w.objects)) [
    | inl e ↦ rw (channel_destroy-missing id w e) v
    | inr (c, here) ↦ elim (Bool-cases c.has_loop) [
      | inl on ↦
          rw (channel_destroy-on_loop id c w here on, deregister-ok E c.fd_ w)
            (gone-Consistent id
              (closed c (record w {
                kernel = (E.del w.kernel c.fd_).1;
                channels_ = erase c.fd_ w.channels_;
              }))
              (λ fd h. deregister-unknown id c w fd here v (rw closed-channels_ at h))
              (closed-Consistent c _
                (rw (deregister-ok E c.fd_ w) at (deregister-Consistent E c.fd_ w v))))
      | inr off ↦
          rw (channel_destroy-off_loop id c w here off)
            (gone-Consistent id w (λ fd. loopless-unknown id c w fd here off v) v)
    ]
  ]

  opens-Consistent :
      (id fd : ℕ) (w : World K)
      → lookup id w.objects ≡ none
      → Consistent E w
      → Consistent E (exec E (opens id fd) w)
  unfolding exec
  opens-Consistent id fd w fresh v =
      objects-Consistent E w (insert id (channel_new fd) w.objects)
        (λ fd' id' c h here.
          (c, ground (arith, lookup-insert id id' (channel_new fd) w.objects), refl, refl))
        v

  pub exec-Consistent :
      (c : Command) (w : World K) → IsCareful w c → Consistent E w → Consistent E (exec E c w)
  unfolding exec set_event_loop
  exec-Consistent (opens id fd) w careful v = opens-Consistent id fd w careful v
  exec-Consistent (awaits_readable id coroutine) w careful v =
      awaits_readable-Consistent id coroutine careful.0 w careful.1 v
  exec-Consistent (awaits_writable id coroutine) w careful v =
      awaits_writable-Consistent id coroutine careful.0 w careful.1 v
  exec-Consistent (drops id) w careful v = elim (Bool-cases (is_locked id w)) [
    | inl held ↦ rw held (record { known = v.known; living = v.living })
    | inr other ↦ rw other (channel_destroy-Consistent id w v)
  ]
  exec-Consistent (leaves id) w careful v =
      adjust-Consistent id careful.0 (λ c. record c { has_loop = false }) w careful.1 v

  pub exec_all-Consistent :
      (cs : List Command) (w : World K)
      → AreCareful w cs
      → Consistent E w
      → Consistent E (exec_all E cs w)
  unfolding exec_all
  exec_all-Consistent [] w careful v = v
  exec_all-Consistent (c ∷ cs) w careful v =
      exec_all-Consistent cs (exec E c w) careful.1 (exec-Consistent c w careful.0 v)
