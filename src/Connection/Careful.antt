-- ===== src/Connection/Careful.antt =====
-- `connect_awaitable` of examples/socket/tcp_connection.cc as a program of the event loop: it leaves the
-- loop consistent, and waits only for a descriptor that nobody waits for.
use ucxpp.Base.{
  ℕ, suc, ◌≡◌, refl, ap, ◌∙◌, List, [], ◌∷◌, false, none, some, arith, Bool-cases, Option-cases,
  inl, inr,
}
use ucxpp.Base.Dict.{lookup, insert, erase}
use ucxpp.EventLoop.{Epoll, Channel, World}
use ucxpp.EventLoop.Program.{opens, awaits_writable, exec}
use ucxpp.EventLoop.Consistent.{Consistent, IsIdle, interest-del_any}
use ucxpp.EventLoop.Kept.{closed, IsCareful, exec-Consistent, channel_destroy-Consistent}
use ucxpp.Channel.{channel_new}
use ucxpp.Connection.Connect.{Attempt, ConnectAwaitable, connect_attempt, connect_any}
use ucxpp.Connection.FirstAddress.{
  works, IsFresh, attempt-works, attempt-fails, attempt_fails-objects, connect_any-worked,
  connect_any-failed, destroyed-gone, inserted,
}

module _ {K : Type 0} (E : Epoll K) (einprogress : ℕ) where
  -- New descriptors are not registered with epoll.
  abbrev pub AreUnregistered : List Attempt → K → Type 0
  AreUnregistered [] k = Unit
  AreUnregistered (a ∷ attempts) k =
      ((fd : ℕ) → a.socket ≡ some fd → E.interest k fd ≡ none) × AreUnregistered attempts k

  made-Consistent :
      (id fd : ℕ) (w : World K)
      → lookup id w.objects ≡ none
      → Consistent E w
      → Consistent E (record w { objects = insert id (channel_new fd) w.objects })
  unfolding exec
  made-Consistent id fd w fresh v = exec-Consistent E (opens id fd) w fresh v

  attempt_fails-Consistent :
      (id : ℕ) (a : Attempt) (w : World K)
      → works einprogress a ≡ false
      → lookup id w.objects ≡ none
      → Consistent E w
      → Consistent E (connect_attempt E einprogress id a w).0
  attempt_fails-Consistent id a w bad fresh v = elim (Option-cases a.socket) [
    | inl e ↦ rw (attempt-fails E einprogress id a w bad, e) v
    | inr (fd, e) ↦
        rw (attempt-fails E einprogress id a w bad, e)
          (channel_destroy-Consistent E id _ (made-Consistent id fd w fresh v))
  ]

  closed-kernel : (c : Channel) (w : World K) → (closed E c w).kernel ≡ w.kernel
  closed-kernel c w = ground arith

  -- A descriptor that is not registered stays so.
  attempt_fails-interest :
      (id : ℕ) (a : Attempt) (w : World K)
      → works einprogress a ≡ false
      → lookup id w.objects ≡ none
      → (fd : ℕ) → E.interest w.kernel fd ≡ none
      → E.interest (connect_attempt E einprogress id a w).0.kernel fd ≡ none
  attempt_fails-interest id a w bad fresh fd h = elim (Option-cases a.socket) [
    | inl e ↦ rw (attempt-fails E einprogress id a w bad, e) h
    | inr (fd', e) ↦
        rw (attempt-fails E einprogress id a w bad, e, destroyed-gone E einprogress id fd' w fresh)
          (ap (λ (k : K). E.interest k fd)
              (closed-kernel (channel_new fd') (record w {
                kernel = (E.del w.kernel fd').1;
                channels_ = erase fd' w.channels_;
                objects = insert id (channel_new fd') w.objects;
              }))
            ∙ interest-del_any E w.kernel fd' fd
            ∙ ground (arith, h))
  ]

  AreUnregistered-kept :
      (attempts : List Attempt) (k k' : K)
      → ((fd : ℕ) → E.interest k fd ≡ none → E.interest k' fd ≡ none)
      → AreUnregistered attempts k
      → AreUnregistered attempts k'
  AreUnregistered-kept [] k k' kept h = tt
  AreUnregistered-kept (a ∷ attempts) k k' kept h =
      (λ fd e. kept fd (h.0 fd e), AreUnregistered-kept attempts k k' kept h.1)

  idle :
      (id fd : ℕ) (w : World K)
      → lookup id w.objects ≡ none
      → E.interest w.kernel fd ≡ none
      → IsIdle E id (channel_new fd) (record w { objects = insert id (channel_new fd) w.objects })
  unfolding channel_new
  idle id fd w fresh h = record {
    here = inserted E einprogress id fd w fresh;
    on_loop = refl;
    free = h;
  }

  -- If the descriptors that `socket` gives are not registered, and channels are made at fresh
  -- addresses, the constructor of `connect_awaitable` leaves a consistent loop consistent; if it
  -- returns, the wait that may follow is for a channel that lives and has the loop, and whose
  -- descriptor nobody waits for.
  pub connect_any-IsCareful :
      (id coroutine : ℕ) (attempts : List Attempt) (w : World K)
      → IsFresh id w.objects
      → AreUnregistered attempts w.kernel
      → Consistent E w
      → let r = connect_any E einprogress id attempts w in
        Consistent E r.0
        × ((a : ConnectAwaitable)
            → r.1 ≡ some a
            → IsCareful E r.0 (awaits_writable a.channel_ coroutine))
  unfolding connect_any
  connect_any-IsCareful id coroutine [] w fresh unregistered v = (v, λ a e. absurd (ground arith))
  connect_any-IsCareful id coroutine (a ∷ attempts) w fresh unregistered v =
      elim (Bool-cases (works einprogress a)) [
        | inl good ↦
            let (fd, e, made) = attempt-works E einprogress id a w good in
            rw (connect_any-worked E einprogress id fd a attempts w _ made) (
              made-Consistent id fd w (fresh id (omega arith)) v,
              λ b same.
                  let at : b.channel_ ≡ id = ground arith in
                  rw at
                    (channel_new fd, idle id fd w (fresh id (omega arith)) (unregistered.0 fd e)),
            )
        | inr bad ↦
            let next = (connect_attempt E einprogress id a w).0 in
            let here : lookup id w.objects ≡ none = fresh id (omega arith) in
            rw (connect_any-failed E einprogress id a attempts w bad) (
              connect_any-IsCareful (suc id) coroutine attempts next
                (λ j more.
                  attempt_fails-objects E einprogress id a w bad here j ∙ fresh j (omega arith))
                (AreUnregistered-kept attempts w.kernel next.kernel
                  (attempt_fails-interest id a w bad here) unregistered.1)
                (attempt_fails-Consistent id a w bad here v))
      ]
