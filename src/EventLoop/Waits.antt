-- ===== src/EventLoop/Waits.antt =====
-- What the loop of examples/socket/event_loop.cc promises: a table of who waits for which descriptor,
-- which commands change at one place, and from which an event takes the coroutine that it resumes.
use mathlib.Core.Path.{fun_ext}
use ucxpp.Base.{
  ℕ, ◌≡◌, ◌≢◌, refl, [], ◌∷◌, ◌++◌, ap, ◌∙◌, true, false, Option, none, some, arith, ◌==◌, ◌⊎◌,
  if◌then◌else◌, Bool-cases, inl, inr, Option-cases,
}
use ucxpp.Base.Int.{is_negative}
use ucxpp.Base.Dict.{Dict, lookup, insert, adjust, lookup-insert, lookup-erase, lookup-adjust}
use ucxpp.Errors.{Result, ok, err, with_errno, check_errno}
use ucxpp.EventLoop.{
  Epoll, Channel, Interest, reads, writes, raises, World, register_channel, deregister,
}
use ucxpp.Channel.{
  channel_new, set_readable_callback, set_writable_callback, set_event_loop, channel_destroy,
}
use ucxpp.EventLoop.Program.{
  Command, opens, awaits_readable, awaits_writable, drops, leaves, exec, caught, is_locked,
}
use ucxpp.EventLoop.Consistent.{Consistent, IsIdle, deregister-ok, interest-del_any}
use ucxpp.EventLoop.Kept.{
  closed-channels_, adjusted-IsIdle, adjust-Consistent, channel_destroy-off_loop,
  channel_destroy-missing, deregister-unknown, loopless-unknown, IsCareful, idle-unknown,
  wait_readable-idle, wait_writable-idle, channel_destroy-on_loop, closed, gone, exec-Consistent,
}

-- Who waits for each descriptor: for what, and the coroutine to resume.
abbrev pub Waits : Type 0
Waits = ℕ → Option (Interest × Option ℕ)

abbrev pub callback_of : Interest → Channel → Option ℕ
callback_of reads c = c.readable_callback_
callback_of writes c = c.writable_callback_

abbrev pub waiter_at : Option Interest → Option ℕ → Dict Channel → Option (Interest × Option ℕ)
waiter_at none id objects = none
waiter_at (some i) none objects = none
waiter_at (some i) (some id) objects = elim (lookup id objects) [
  | none ↦ none
  | some c ↦ some (i, callback_of i c)
]

-- A table with one place changed.
abbrev pub update : Waits → ℕ → Option (Interest × Option ℕ) → Waits
update f fd x fd' = if fd' == fd then x else f fd'

module _ {K : Type 0} (E : Epoll K) where
  abbrev pub waits : World K → Waits
  waits w fd = waiter_at (E.interest w.kernel fd) (lookup fd w.channels_) w.objects

  -- A wait on the channel `c` for the coroutine: refused if epoll refuses it, with the exception that the
  -- coroutine gets, and otherwise entered.
  abbrev pub Waited : Interest → (coroutine : ℕ) → Channel → World K → World K → Type 0
  Waited i coroutine c w w' =
      let (rc, errno) = (E.add w.kernel c.fd_ i).0 in
      ((is_negative rc ≡ true)
        × (waits w' ≡ waits w)
        × (w'.trace ≡ w.trace ++ raises (with_errno "failed to add fd to epoll" errno) ∷ []))
      ⊎ ((is_negative rc ≡ false)
          × (waits w c.fd_ ≡ none)
          × (waits w' ≡ update (waits w) c.fd_ (some (i, some coroutine)))
          × (w'.trace ≡ w.trace))

  -- What becomes of the table when a channel goes.
  abbrev pub Dropped : Option Channel → World K → World K → Type 0
  Dropped none w w' = waits w' ≡ waits w
  Dropped (some c) w w' = waits w' ≡ (if c.has_loop then update (waits w) c.fd_ none else waits w)

  -- What each command does to the table.
  abbrev pub Allowed : Command → World K → World K → Type 0
  Allowed (opens id fd) w w' = waits w' ≡ waits w
  Allowed (awaits_readable id coroutine) w w' =
      (c : Channel) × (lookup id w.objects ≡ some c) × Waited reads coroutine c w w'
  Allowed (awaits_writable id coroutine) w w' =
      (c : Channel) × (lookup id w.objects ≡ some c) × Waited writes coroutine c w w'
  Allowed (drops id) w w' = Dropped (if is_locked id w then none else lookup id w.objects) w w'
  Allowed (leaves id) w w' = waits w' ≡ waits w

  -- Registration, on the table.
  register_failed :
      (id : ℕ) (c : Channel) (i : Interest) (w : World K)
      → IsIdle E id c w
      → Consistent E w
      → is_negative (E.add w.kernel c.fd_ i).0.0 ≡ true
      → (fd : ℕ) → waits (register_channel E id c.fd_ i w).0 fd ≡ waits w fd
  unfolding register_channel check_errno
  register_failed id c i w s v n fd = ground (
    arith,
    E.interest-add w.kernel c.fd_ i fd,
    lookup-insert c.fd_ fd id w.channels_,
    lookup-erase c.fd_ fd (insert c.fd_ id w.channels_),
    s.free,
  )

  pub registered :
      (id : ℕ) (c : Channel) (i : Interest) (w : World K)
      → IsIdle E id c w
      → Consistent E w
      → is_negative (E.add w.kernel c.fd_ i).0.0 ≡ false
      → (fd : ℕ)
      → waits (register_channel E id c.fd_ i w).0 fd
        ≡ update (waits w) c.fd_ (some (i, callback_of i c)) fd
  unfolding register_channel check_errno
  registered id c i w s v n fd = ground (
    arith,
    E.interest-add w.kernel c.fd_ i fd,
    lookup-insert c.fd_ fd id w.channels_,
    v.known c.fd_,
    s.free,
    s.here,
  )

  -- A channel that no descriptor leads to may change, or go.
  pub adjusted :
      (id : ℕ) (c : Channel) (g : Channel → Channel) (w : World K)
      → IsIdle E id c w
      → Consistent E w
      → (fd : ℕ) → waits (record w { objects = adjust id g w.objects }) fd ≡ waits w fd
  adjusted id c g w s v fd = elim (Option-cases (lookup fd w.channels_)) [
    | inl e ↦ rw e (ground arith)
    | inr (id', e) ↦
        rw e (ground (arith, lookup-adjust id id' g w.objects, idle-unknown E id c w fd s v))
  ]

  pub caught-waits : (r : World K × Result (Unit {0})) → waits (caught r) ≡ waits r.0
  caught-waits (w, ok u) = refl
  caught-waits (w, err e) = refl

  caught-trace :
      (id fd : ℕ) (i : Interest) (w : World K)
      → (caught (register_channel E id fd i w)).trace ≡ (
          if is_negative (E.add w.kernel fd i).0.0
          then w.trace
            ++ raises (with_errno "failed to add fd to epoll" (E.add w.kernel fd i).0.1) ∷ []
          else w.trace)
  unfolding register_channel check_errno
  caught-trace id fd i w = ground arith

  -- A wait, behind the callback that was set on the channel.
  waiting :
      (id coroutine : ℕ) (c : Channel) (g : Channel → Channel) (i : Interest) (w : World K)
      → (g c).fd_ ≡ c.fd_
      → (g c).has_loop ≡ c.has_loop
      → callback_of i (g c) ≡ some coroutine
      → IsIdle E id c w
      → Consistent E w
      → Waited i coroutine c w (
          caught (register_channel E id (g c).fd_ i (record w { objects = adjust id g w.objects })))
  waiting id coroutine c g i w d l b s v =
      elim (Bool-cases (is_negative (E.add w.kernel c.fd_ i).0.0)) [
        | inl n ↦ inl (
          n,
          caught-waits (register_channel E id (g c).fd_ i w1)
              ∙ (fun_ext
                  λ fd. register_failed id (g c) i w1 s1 v1 (rw d n) fd ∙ adjusted id c g w s v fd),
          caught-trace id (g c).fd_ i w1 ∙ rw (d, n) refl,
        )
        | inr n ↦ inr (
          n,
          unchanged,
          caught-waits (register_channel E id (g c).fd_ i w1)
              ∙ (fun_ext λ fd. registered id (g c) i w1 s1 v1 (rw d n) fd ∙ moved fd),
          caught-trace id (g c).fd_ i w1 ∙ rw (d, n) refl,
        )
      ]
    where
      w1 : World K
      w1 = record w { objects = adjust id g w.objects }

      s1 : IsIdle E id (g c) w1
      s1 = adjusted-IsIdle E id c g w d l s

      v1 : Consistent E w1
      v1 = adjust-Consistent E id c g w s v

      unchanged : waits w c.fd_ ≡ none
      unchanged = rw s.free refl

      moved :
          (fd : ℕ)
          → update (waits w1) (g c).fd_ (some (i, callback_of i (g c))) fd
            ≡ update (waits w) c.fd_ (some (i, some coroutine)) fd
      moved fd = rw (b, d, adjusted id c g w s v fd) refl

  -- A descriptor removed, and a channel that goes.
  pub removed : (fd : ℕ) (w : World K) → waits (deregister E fd w).0 ≡ update (waits w) fd none
  removed fd w = fun_ext λ fd'.
      rw (deregister-ok E fd w)
        (ground (arith, interest-del_any E w.kernel fd fd', lookup-erase fd fd' w.channels_))

  closed-waits : (c : Channel) (w : World K) → waits (closed E c w) ≡ waits w
  closed-waits c w = elim (Bool-cases (c.fd_ == 0)) [ inl e ↦ rw e refl | inr e ↦ rw e refl ]

  pub gone-waits :
      (id : ℕ) (w : World K)
      → ((fd : ℕ) → lookup fd w.channels_ ≢ some id)
      → waits (gone E id w) ≡ waits w
  gone-waits id w unknown = fun_ext λ fd. elim (Option-cases (lookup fd w.channels_)) [
    | inl e ↦ rw e (ground arith)
    | inr (id', e) ↦ rw e (ground (arith, lookup-erase id id' w.objects, unknown fd))
  ]

  destroying :
      (id : ℕ) (w : World K)
      → Consistent E w
      → Dropped (lookup id w.objects) w (channel_destroy E id w)
  destroying id w v = elim (Option-cases (lookup id w.objects)) [
    | inl e ↦ rw e (ap waits (channel_destroy-missing E id w e))
    | inr (c, here) ↦ elim (Bool-cases c.has_loop) [
      | inl on ↦
          rw (here, on)
            (ap waits (channel_destroy-on_loop E id c w here on)
              ∙ gone-waits id (closed E c (deregister E c.fd_ w).0) (unknown c here)
              ∙ closed-waits c (deregister E c.fd_ w).0
              ∙ removed c.fd_ w)
      | inr off ↦
          rw (here, off)
            (ap waits (channel_destroy-off_loop E id c w here off)
              ∙ gone-waits id w (λ fd. loopless-unknown E id c w fd here off v))
    ]
  ]
    where
      unknown :
          (c : Channel)
          → lookup id w.objects ≡ some c
          → (fd : ℕ) → lookup fd (closed E c (deregister E c.fd_ w).0).channels_ ≢ some id
      unknown c here fd h =
          deregister-unknown E id c w fd here v
            (rw (closed-channels_, deregister-ok E c.fd_ w) at h)

  pub opened :
      (id : ℕ) (c : Channel) (w : World K)
      → lookup id w.objects ≡ none
      → Consistent E w
      → (fd : ℕ) → waits (record w { objects = insert id c w.objects }) fd ≡ waits w fd
  opened id c w fresh v fd = elim (Option-cases (lookup fd w.channels_)) [
    | inl e ↦ rw e (ground arith)
    | inr (id', e) ↦
        let (c', here, fits, on) = v.living fd id' e in
        rw e (ground (arith, lookup-insert id id' c w.objects, here, fresh))
  ]

  exec-waits :
      (c : Command) (w : World K) → IsCareful E w c → Consistent E w → Allowed c w (exec E c w)
  unfolding exec set_readable_callback set_writable_callback set_event_loop
  exec-waits (opens id fd) w careful v = fun_ext λ fd'. opened id (channel_new fd) w careful v fd'
  exec-waits (awaits_readable id coroutine) w (c, s) v =
      let g = λ (c : Channel). record c { readable_callback_ = some coroutine } in
      (
        c,
        s.here,
        rw (wait_readable-idle E id (g c) _ (adjusted-IsIdle E id c g w refl refl s))
            (waiting id coroutine c g reads w refl refl refl s v),
      )
  exec-waits (awaits_writable id coroutine) w (c, s) v =
      let g = λ (c : Channel). record c { writable_callback_ = some coroutine } in
      (
        c,
        s.here,
        rw (wait_writable-idle E id (g c) _ (adjusted-IsIdle E id c g w refl refl s))
            (waiting id coroutine c g writes w refl refl refl s v),
      )
  exec-waits (drops id) w careful v = elim (Bool-cases (is_locked id w)) [
    | inl held ↦ rw held refl
    | inr other ↦ rw other (destroying id w v)
  ]
  exec-waits (leaves id) w careful v =
      fun_ext λ fd. adjusted id careful.0 (λ c. record c { has_loop = false }) w careful.1 v fd

  -- In a consistent loop a command of a careful program changes the table of waits at one descriptor
  -- at most, and the map still agrees with epoll behind it. A wait is refused exactly if epoll refuses
  -- the descriptor: then the table stays and the coroutine gets the exception; otherwise the entry of
  -- the descriptor, which was empty, is filled with the coroutine that waits, and nothing is thrown.
  -- Dropping a channel empties the entry of its descriptor if the channel has the loop and `poll` does
  -- not hold it, and otherwise changes nothing; the other commands change nothing.
  pub exec-Allowed :
      (c : Command) (w : World K)
      → IsCareful E w c
      → Consistent E w
      → Allowed c w (exec E c w) × Consistent E (exec E c w)
  exec-Allowed c w careful v = (exec-waits c w careful v, exec-Consistent E c w careful v)
