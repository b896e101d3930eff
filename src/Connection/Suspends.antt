-- ===== src/Connection/Suspends.antt =====
-- A whole `co_await` on `connect` of examples/socket/tcp_connection.cc up to its suspension, in the event
-- loop.
use ucxpp.Base.{
  ℕ, ◌≡◌, refl, ◌∙◌, List, Bool, true, false, Option, none, some, if◌then◌else◌, arith, Bool-cases,
  inl, inr,
}
use ucxpp.Base.Int.{ℤ, is_negative, is_zero}
use ucxpp.Base.Dict.{lookup, adjust}
use ucxpp.Errors.{RuntimeError, with_rc, Result, ok, err, plain, check_errno}
use ucxpp.EventLoop.{Epoll, Channel, writes, World, register_channel}
use ucxpp.EventLoop.Consistent.{Consistent, IsIdle, register-Consistent}
use ucxpp.EventLoop.Kept.{adjusted-IsIdle, adjust-Consistent, wait_writable-idle}
use ucxpp.EventLoop.Waits.{waits, registered}
use ucxpp.Channel.{set_writable_callback}
use ucxpp.Connection.Connect.{
  Attempt, ConnectAwaitable, connect_any, connect_new, connect_ready, connect_suspend,
  connect_start,
}
use ucxpp.Connection.FirstAddress.{IsFresh}
use ucxpp.Connection.Careful.{AreUnregistered, connect_any-IsCareful}

module _ {K : Type 0} (E : Epoll K) (einprogress : ℕ) where
  -- A registration that returns makes the coroutine wait.
  registered-waits :
      (id : ℕ) (c : Channel) (coroutine : ℕ) (w : World K)
      → c.writable_callback_ ≡ some coroutine
      → IsIdle E id c w
      → Consistent E w
      → (register_channel E id c.fd_ writes w).1 ≡ ok tt
      → waits E (register_channel E id c.fd_ writes w).0 c.fd_ ≡ some (writes, some coroutine)
  unfolding register_channel check_errno
  registered-waits id c coroutine w set s v done =
      elim (Bool-cases (is_negative (E.add w.kernel c.fd_ writes).0.0)) [
        | inl n ↦ absurd (ground (arith, n))
        | inr n ↦ registered E id c writes w s v n c.fd_ ∙ ground (arith, set)
      ]

  connect_suspend-waits :
      (a : ConnectAwaitable) (c : Channel) (coroutine : ℕ) (w : World K)
      → IsIdle E a.channel_ c w
      → Consistent E w
      → let s = connect_suspend E einprogress a coroutine w in
        Consistent E s.0 × (s.1 ≡ ok tt → waits E s.0 c.fd_ ≡ some (writes, some coroutine))
  unfolding connect_suspend set_writable_callback
  connect_suspend-waits a c coroutine w s v =
      let g : Channel → Channel = λ c. record c { writable_callback_ = some coroutine } in
      let w1 : World K = record w { objects = adjust a.channel_ g w.objects } in
      let s1 : IsIdle E a.channel_ (g c) w1 = adjusted-IsIdle E a.channel_ c g w refl refl s in
      let v1 : Consistent E w1 = adjust-Consistent E a.channel_ c g w s v in
      rw (wait_writable-idle E a.channel_ (g c) w1 s1) (
        register-Consistent E a.channel_ (g c) writes w1 s1 v1,
        registered-waits a.channel_ (g c) coroutine w1 refl s1 v1,
      )

  -- Who waits, by what a `co_await` gave that began with the channels of `made`: if the coroutine is
  -- suspended, it is the one that waits to write to the descriptor of its channel.
  abbrev pub Suspended :
      (coroutine : ℕ) → (made w : World K) → Result (Bool × ConnectAwaitable) → Type 0
  Suspended coroutine made w (err e) = Unit
  Suspended coroutine made w (ok (true, a)) = Unit
  Suspended coroutine made w (ok (false, a)) =
      (c : Channel) × (lookup a.channel_ made.objects ≡ some c)
      × (waits E w c.fd_ ≡ some (writes, some coroutine))

  -- The loop is consistent, too.
  abbrev pub IsAwaiting :
      (coroutine : ℕ) → (made : World K) → World K × Result (Bool × ConnectAwaitable) → Type 0
  IsAwaiting coroutine made r = Consistent E r.0 × Suspended coroutine made r.0 r.1

  -- The coroutine goes on, or is suspended.
  step :
      (coroutine : ℕ)
      → World K × Result ConnectAwaitable
      → World K × Result (Bool × ConnectAwaitable)
  unfolding connect_suspend connect_ready
  step coroutine r = elim r.1 [
    | err e ↦ (r.0, err e)
    | ok a ↦
        if connect_ready a
        then (r.0, ok (true, a))
        else (let s = connect_suspend E einprogress a coroutine r.0 in
            elim s.1 [ err e ↦ (s.0, err e) | ok u ↦ (s.0, ok (false, a)) ])
  ]

  step-IsAwaiting :
      (coroutine : ℕ) (a : ConnectAwaitable) (w : World K)
      → Consistent E w
      → ((c : Channel) × IsIdle E a.channel_ c w)
      → IsAwaiting coroutine w (step coroutine (w, ok a))
  unfolding step
  step-IsAwaiting coroutine a w v (c, s) = elim (Bool-cases (connect_ready a)) [
    | inl ready ↦ rw ready (v, tt)
    | inr not_ready ↦ rw not_ready (
        suspended (connect_suspend E einprogress a coroutine w)
          (connect_suspend-waits a c coroutine w s v))
  ]
    where
      suspended :
          (t : World K × Result (Unit {0}))
          → Consistent E t.0 × (t.1 ≡ ok tt → waits E t.0 c.fd_ ≡ some (writes, some coroutine))
          → IsAwaiting coroutine w (
              let after : World K × Result (Bool × ConnectAwaitable) = elim t.1 [
                | err e ↦ (t.0, err e)
                | ok u ↦ (t.0, ok (false, a))
              ] in
              after)
      suspended (w', err x) (v', h) = (v', tt)
      suspended (w', ok u) (v', h) = (v', (c, s.here, h refl))

  step-refused :
      (coroutine : ℕ) (made w : World K) (x : RuntimeError)
      → Consistent E w
      → IsAwaiting coroutine made (step coroutine (w, err x))
  unfolding step
  step-refused coroutine made w x v = (v, tt)

  connect_start-step :
      (id : ℕ) (gai : ℤ) (attempts : List Attempt) (coroutine : ℕ) (w : World K)
      → connect_start E einprogress id gai attempts coroutine w
        ≡ step coroutine (connect_new E einprogress id gai attempts w)
  unfolding connect_start step
  connect_start-step id gai attempts coroutine w = refl

  connect_new-unresolved :
      (id : ℕ) (gai : ℤ) (attempts : List Attempt) (w : World K)
      → is_zero gai ≡ false
      → connect_new E einprogress id gai attempts w
        ≡ (w, err (with_rc "failed to getaddrinfo: %s" gai))
  unfolding connect_new
  connect_new-unresolved id gai attempts w e = rw (connect_new, e) refl

  -- What the constructor returns behind its loop.
  abbrev behind : World K × Option ConnectAwaitable → World K × Result ConnectAwaitable
  behind r = elim r.1 [ none ↦ (r.0, err (plain "failed to connect")) | some a ↦ (r.0, ok a) ]

  connect_new-resolved :
      (id : ℕ) (gai : ℤ) (attempts : List Attempt) (w : World K)
      → is_zero gai ≡ true
      → connect_new E einprogress id gai attempts w
        ≡ behind (connect_any E einprogress id attempts w)
  unfolding connect_new
  connect_new-resolved id gai attempts w e = rw (connect_new, e) refl

  -- A `co_await` on `connect` leaves a consistent loop consistent, whether it throws, goes on at once or
  -- is suspended; if it is suspended, its coroutine is the one that waits to write to the descriptor
  -- of the channel that was made for it. The descriptors that `socket` gives are not registered, and
  -- channels are made at fresh addresses.
  pub connect_start-IsAwaiting :
      (id : ℕ) (gai : ℤ) (attempts : List Attempt) (coroutine : ℕ) (w : World K)
      → IsFresh id w.objects
      → AreUnregistered E einprogress attempts w.kernel
      → Consistent E w
      → IsAwaiting coroutine
          (connect_any E einprogress id attempts w).0
          (connect_start E einprogress id gai attempts coroutine w)
  connect_start-IsAwaiting id gai attempts coroutine w fresh unregistered v =
      elim (Bool-cases (is_zero gai)) [
        | inr f ↦
            rw
              (
                connect_start-step id gai attempts coroutine w,
                connect_new-unresolved id gai attempts w f,
              )
              (step-refused coroutine (connect_any E einprogress id attempts w).0 w
                (with_rc "failed to getaddrinfo: %s" gai) v)
        | inl z ↦
            rw
              (
                connect_start-step id gai attempts coroutine w,
                connect_new-resolved id gai attempts w z,
              )
              (made (connect_any E einprogress id attempts w)
                (connect_any-IsCareful E einprogress id coroutine attempts w fresh unregistered v))
      ]
    where
      made :
          (r : World K × Option ConnectAwaitable)
          → Consistent E r.0
            × ((a : ConnectAwaitable) → r.1 ≡ some a → (c : Channel) × IsIdle E a.channel_ c r.0)
          → IsAwaiting coroutine r.0 (step coroutine (behind r))
      made (w', none) (v', h) = step-refused coroutine w' w' (plain "failed to connect") v'
      made (w', some a) (v', h) = step-IsAwaiting coroutine a w' v' (h a refl)
