-- ===== src/EventLoop/Consistent.antt =====
-- The map of examples/socket/event_loop.cc against the interest list of epoll: who keeps them equal.
use ucxpp.Base.{
  ℕ, ◌≡◌, ◌∙◌, sym, true, none, some, arith, ◌==◌, ==_iff, if◌then◌else◌, Bool-cases, inl, inr,
  Option-cases,
}
use ucxpp.Base.Dict.{Dict, lookup, insert, erase, is_some, lookup-insert, lookup-erase}
use ucxpp.Errors.{ok, check_errno}
use ucxpp.EventLoop.{Epoll, Channel, Interest, World, register_channel, deregister}

module _ {K : Type 0} (E : Epoll K) where
  -- A descriptor is registered with epoll exactly if the map knows it, and then as that of a channel
  -- that lives and has a loop.
  pub record Consistent (w : World K) : Type 0 where
    pub known : (fd : ℕ) → is_some (E.interest w.kernel fd) ≡ is_some (lookup fd w.channels_)
    pub living :
        (fd id : ℕ)
        → lookup fd w.channels_ ≡ some id
        → (c : Channel) × (lookup id w.objects ≡ some c) × (c.fd_ ≡ fd) × (c.has_loop ≡ true)

  pub deregister-ok :
      (fd : ℕ) (w : World K)
      → deregister E fd w
        ≡ (record w { kernel = (E.del w.kernel fd).1; channels_ = erase fd w.channels_ }, ok tt)
  unfolding deregister check_errno
  deregister-ok fd w = elim (Option-cases (E.interest w.kernel fd)) [
    | inl e ↦ ground (arith, E.del_missing w.kernel fd e)
    | inr (j, e) ↦ ground (arith, E.del_registered w.kernel fd j e)
  ]

  -- Removing a descriptor leaves it unregistered, also if it was not registered before.
  pub interest-del_any :
      (k : K) (fd fd' : ℕ)
      → E.interest (E.del k fd).1 fd' ≡ (if fd' == fd then none else E.interest k fd')
  interest-del_any k fd fd' = elim (Option-cases (E.interest k fd)) [
    | inl e ↦ ground (arith, E.interest-del k fd fd', E.del_missing k fd e)
    | inr (j, e) ↦ ground (arith, E.interest-del k fd fd', E.del_registered k fd j e)
  ]

  pub deregister-Consistent :
      (fd : ℕ) (w : World K) → Consistent w → Consistent (deregister E fd w).0
  deregister-Consistent fd w v = rw (deregister-ok fd w) (record {
    known = λ fd'.
        ground
          (arith, interest-del_any w.kernel fd fd', lookup-erase fd fd' w.channels_, v.known fd');
    living = λ fd' id h. v.living fd' id (kept fd' id h);
  })
    where
      kept :
          (fd' id : ℕ)
          → lookup fd' (erase fd w.channels_) ≡ some id
          → lookup fd' w.channels_ ≡ some id
      kept fd' id h = ground (arith, lookup-erase fd fd' w.channels_)

  -- A channel that lives, has a loop, and whose descriptor is not registered.
  pub record IsIdle (id : ℕ) (c : Channel) (w : World K) : Type 0 where
    pub here : lookup id w.objects ≡ some c
    pub on_loop : c.has_loop ≡ true
    pub free : E.interest w.kernel c.fd_ ≡ none

  register-known :
      (id : ℕ) (c : Channel) (i : Interest) (w : World K)
      → IsIdle id c w
      → Consistent w
      → (fd : ℕ)
      → is_some (E.interest (register_channel E id c.fd_ i w).0.kernel fd)
        ≡ is_some (lookup fd (register_channel E id c.fd_ i w).0.channels_)
  unfolding register_channel check_errno
  register-known id c i w s v fd = ground (
    arith,
    E.interest-add w.kernel c.fd_ i fd,
    lookup-insert c.fd_ fd id w.channels_,
    lookup-erase c.fd_ fd (insert c.fd_ id w.channels_),
    v.known fd,
    v.known c.fd_,
    s.free,
  )

  register-origin :
      (id : ℕ) (c : Channel) (i : Interest) (w : World K)
      → IsIdle id c w
      → Consistent w
      → (fd id' : ℕ) → lookup fd (register_channel E id c.fd_ i w).0.channels_ ≡ some id'
      → lookup fd w.channels_ ≡ (if fd == c.fd_ then none else some id')
  unfolding register_channel check_errno
  register-origin id c i w s v fd id' h = ground (
    arith,
    lookup-insert c.fd_ fd id w.channels_,
    lookup-erase c.fd_ fd (insert c.fd_ id w.channels_),
    v.known c.fd_,
    s.free,
  )

  register-target :
      (id : ℕ) (c : Channel) (i : Interest) (w : World K)
      → IsIdle id c w
      → Consistent w
      → (fd id' : ℕ) → lookup fd (register_channel E id c.fd_ i w).0.channels_ ≡ some id'
      → (fd == c.fd_) ≡ true
      → id' ≡ id
  unfolding register_channel check_errno
  register-target id c i w s v fd id' h k = ground (
    arith,
    lookup-insert c.fd_ fd id w.channels_,
    lookup-erase c.fd_ fd (insert c.fd_ id w.channels_),
    v.known c.fd_,
    s.free,
  )

  pub register-objects :
      (id fd : ℕ) (i : Interest) (w : World K)
      → (register_channel E id fd i w).0.objects ≡ w.objects
  unfolding register_channel check_errno
  register-objects id fd i w = ground arith

  pub register-Consistent :
      (id : ℕ) (c : Channel) (i : Interest) (w : World K)
      → IsIdle id c w
      → Consistent w
      → Consistent (register_channel E id c.fd_ i w).0
  register-Consistent id c i w s v = record {
    known = register-known id c i w s v;
    living = λ fd id' h. rw (register-objects id c.fd_ i w) (elim (Bool-cases (fd == c.fd_)) [
      | inl same ↦
          let e : id' ≡ id = register-target id c i w s v fd id' h same in
          (c, rw e s.here, sym ((==_iff fd c.fd_).0 same), s.on_loop)
      | inr other ↦ v.living fd id' (rw other at (register-origin id c i w s v fd id' h))
    ]);
  }

  -- Changes of the channels that leave alone descriptor and loop of those that are registered.
  pub objects-Consistent :
      (w : World K) (objects' : Dict Channel)
      → ((fd id : ℕ) (c : Channel)
          → lookup fd w.channels_ ≡ some id
          → lookup id w.objects ≡ some c
          → (c' : Channel) × (lookup id objects' ≡ some c')
            × (c'.fd_ ≡ c.fd_)
            × (c'.has_loop ≡ c.has_loop))
      → Consistent w
      → Consistent (record w { objects = objects' })
  objects-Consistent w objects' same v = record {
    known = v.known;
    living = λ fd id h.
        let (c, here, fits, on) = v.living fd id h in
        let (c', here', fits', on') = same fd id c h here in (c', here', fits' ∙ fits, on' ∙ on);
  }
