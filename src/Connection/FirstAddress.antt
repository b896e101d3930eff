-- ===== src/Connection/FirstAddress.antt =====
-- Which address `connect_awaitable` of examples/socket/tcp_connection.cc takes, and what becomes of the
-- sockets that it makes.
use ucxpp.Base.{
  ℕ, suc, ◌≤◌, ◌≡◌, ◌≢◌, refl, sym, ap, ◌∙◌, List, [], ◌∷◌, ◌++◌, append-nil, append_assoc, Bool,
  true, false, not, ◌&&◌, Option, none, some, ◌==◌, if◌then◌else◌, arith, Bool-cases, Option-cases,
  inl, inr,
}
use ucxpp.Base.Int.{ℤ, is_negative}
use ucxpp.Base.Dict.{Dict, lookup, insert, erase, is_some, lookup-insert, lookup-erase}
use ucxpp.Errors.{check_errno}
use ucxpp.EventLoop.{Epoll, Channel, World, LoopEvent, closes, undefined}
use ucxpp.EventLoop.Consistent.{deregister-ok}
use ucxpp.EventLoop.Kept.{gone, closed, channel_destroy-on_loop}
use ucxpp.Channel.{channel_new, set_nonblocking, channel_destroy}
use ucxpp.Connection.Connect.{Attempt, ConnectAwaitable, connect_attempt, connect_any}

-- An address works if there is a socket, it can be made nonblocking, and the connection is made or
-- under way.
abbrev pub works : (einprogress : ℕ) → Attempt → Bool
works einprogress a =
    is_some a.socket
    && (not (is_negative a.getfl.0)
        && (not (is_negative a.setfl.0)
            && not (is_negative a.connect.0 && not (a.connect.1 == einprogress))))

-- The socket of an address that does not work. Descriptor 0 fails an assertion before it is closed.
abbrev pub left : Option ℕ → List LoopEvent
left none = []
left (some fd) = if fd == 0 then undefined ∷ closes fd ∷ [] else closes fd ∷ []

-- The sockets that are closed: those made before the first address that works.
abbrev pub abandoned : (einprogress : ℕ) → List Attempt → List LoopEvent
abandoned einprogress [] = []
abandoned einprogress (a ∷ attempts) =
    let rest = abandoned einprogress attempts in
    if works einprogress a then [] else left a.socket ++ rest

-- The first address that works.
abbrev pub chosen : (einprogress : ℕ) → List Attempt → Option Attempt
chosen einprogress [] = none
chosen einprogress (a ∷ attempts) =
    let rest = chosen einprogress attempts in if works einprogress a then some a else rest

abbrev pub IsFresh : ℕ → Dict Channel → Type 0
IsFresh id objects = (j : ℕ) → id ≤ j → lookup j objects ≡ none

module _ {K : Type 0} where
  -- What the constructor makes of the channels: the one of the address that it takes is new, all
  -- others are as before.
  abbrev pub Made : Option Attempt → Dict Channel → World K × Option ConnectAwaitable → Type 0
  Made none objects r = (r.1 ≡ none) × ((j : ℕ) → lookup j r.0.objects ≡ lookup j objects)
  Made (some a) objects r =
      (id : ℕ) × (fd : ℕ) × (a.socket ≡ some fd)
      × (r.1 ≡ some (record { rc_ = a.connect.0; channel_ = id }))
      × (lookup id r.0.objects ≡ some (channel_new fd))
      × ((j : ℕ) → j ≢ id → lookup j r.0.objects ≡ lookup j objects)

  module _ (E : Epoll K) (einprogress : ℕ) where
    pub attempt-works :
        (id : ℕ) (a : Attempt) (w : World K)
        → works einprogress a ≡ true
        → (fd : ℕ) × (a.socket ≡ some fd)
          × (connect_attempt E einprogress id a w
              ≡ (record w { objects = insert id (channel_new fd) w.objects }, some a.connect.0))
    unfolding connect_attempt set_nonblocking check_errno
    attempt-works id a w good = elim (Option-cases a.socket) [
      | inl e ↦ absurd (ground (arith, e))
      | inr (fd, e) ↦ (fd, e, ground (arith, e))
    ]

    abbrev pub destroyed : (id fd : ℕ) → World K → World K
    destroyed id fd w =
        channel_destroy E id (record w { objects = insert id (channel_new fd) w.objects })

    pub attempt-fails :
        (id : ℕ) (a : Attempt) (w : World K)
        → works einprogress a ≡ false
        → connect_attempt E einprogress id a w
          ≡ (elim a.socket [ none ↦ w | some fd ↦ destroyed id fd w ], none)
    unfolding connect_attempt set_nonblocking check_errno
    attempt-fails id a w bad = elim (Option-cases a.socket) [
      | inl e ↦ ground (arith, e)
      | inr (fd, e) ↦ ground (arith, e)
    ]

    pub destroyed-gone :
        (id fd : ℕ) (w : World K)
        → lookup id w.objects ≡ none
        → destroyed id fd w
          ≡ gone E id (
              closed E (channel_new fd) (record w {
                kernel = (E.del w.kernel fd).1;
                channels_ = erase fd w.channels_;
                objects = insert id (channel_new fd) w.objects;
              }))
    unfolding channel_new
    destroyed-gone id fd w fresh =
        rw
          (
            channel_destroy-on_loop E id (channel_new fd)
                (record w { objects = insert id (channel_new fd) w.objects })
                (ground (arith, lookup-insert id id (channel_new fd) w.objects)) refl,
            deregister-ok E fd (record w { objects = insert id (channel_new fd) w.objects }),
          )
          refl

    destroyed-closes :
        (id fd : ℕ) (w : World K)
        → lookup id w.objects ≡ none
        → (destroyed id fd w).trace ≡ w.trace ++ left (some fd)
    unfolding channel_new
    destroyed-closes id fd w fresh =
        rw (destroyed-gone id fd w fresh) (elim (Bool-cases (fd == 0)) [
          | inl e ↦ rw e (append_assoc w.trace (undefined ∷ []) (closes fd ∷ []))
          | inr e ↦ rw e refl
        ])

    destroyed-objects :
        (id fd : ℕ) (w : World K)
        → lookup id w.objects ≡ none
        → (j : ℕ) → lookup j (destroyed id fd w).objects ≡ lookup j w.objects
    unfolding channel_new
    destroyed-objects id fd w fresh j = rw (destroyed-gone id fd w fresh) (
        ground (
          arith,
          lookup-erase id j (insert id (channel_new fd) w.objects),
          lookup-insert id j (channel_new fd) w.objects,
        ))

    -- An attempt that fails leaves the channels as they were.
    pub attempt_fails-objects :
        (id : ℕ) (a : Attempt) (w : World K)
        → works einprogress a ≡ false
        → lookup id w.objects ≡ none
        → (j : ℕ) → lookup j (connect_attempt E einprogress id a w).0.objects ≡ lookup j w.objects
    attempt_fails-objects id a w bad fresh j = elim (Option-cases a.socket) [
      | inl e ↦ rw (attempt-fails id a w bad, e) refl
      | inr (fd, e) ↦ rw (attempt-fails id a w bad, e) (destroyed-objects id fd w fresh j)
    ]

    attempt_fails-trace :
        (id : ℕ) (a : Attempt) (w : World K)
        → works einprogress a ≡ false
        → lookup id w.objects ≡ none
        → (connect_attempt E einprogress id a w).0.trace ≡ w.trace ++ left a.socket
    attempt_fails-trace id a w bad fresh = elim (Option-cases a.socket) [
      | inl e ↦ rw (attempt-fails id a w bad, e) (sym (append-nil w.trace))
      | inr (fd, e) ↦ rw (attempt-fails id a w bad, e) (destroyed-closes id fd w fresh)
    ]

    pub connect_any-failed :
        (id : ℕ) (a : Attempt) (attempts : List Attempt) (w : World K)
        → works einprogress a ≡ false
        → connect_any E einprogress id (a ∷ attempts) w
          ≡ connect_any E einprogress (suc id) attempts (connect_attempt E einprogress id a w).0
    unfolding connect_any
    connect_any-failed id a attempts w bad =
        rw (connect_any, ap (λ (r : World K × Option ℤ). r.1) (attempt-fails id a w bad)) refl

    pub connect_any-worked :
        (id fd : ℕ) (a : Attempt) (attempts : List Attempt) (w w' : World K)
        → connect_attempt E einprogress id a w ≡ (w', some a.connect.0)
        → connect_any E einprogress id (a ∷ attempts) w
          ≡ (w', some (record { rc_ = a.connect.0; channel_ = id }))
    unfolding connect_any
    connect_any-worked id fd a attempts w w' made = ap after made
      where
        after : World K × Option ℤ → World K × Option ConnectAwaitable
        after r = elim r.1 [
          | none ↦ connect_any E einprogress (suc id) attempts r.0
          | some rc ↦ (r.0, some (record { rc_ = rc; channel_ = id }))
        ]

    -- What holds from one attempt on holds before one that failed.
    Made-before :
        (o : Option Attempt) (objects objects' : Dict Channel)
        (r : World K × Option ConnectAwaitable)
        → ((j : ℕ) → lookup j objects' ≡ lookup j objects)
        → Made o objects' r
        → Made o objects r
    Made-before none objects objects' r same (e, h) = (e, λ j. h j ∙ same j)
    Made-before (some a) objects objects' r same (id, fd, s, e, here, h) =
        (id, fd, s, e, here, λ j other. h j other ∙ same j)

    pub inserted :
        (id fd : ℕ) (w : World K)
        → lookup id w.objects ≡ none
        → lookup id (insert id (channel_new fd) w.objects) ≡ some (channel_new fd)
    inserted id fd w fresh = ground (arith, lookup-insert id id (channel_new fd) w.objects)

    -- From the addresses of `getaddrinfo` the constructor of `connect_awaitable` takes the first
    -- that works: it closes each socket that it made before that one, in order, and what it returns
    -- holds a new channel for the socket of that one. If no address works it returns nothing and no
    -- channel is left. All other channels stay as they were. The channels made are at fresh
    -- addresses.
    pub connect_any-first :
        (id : ℕ) (attempts : List Attempt) (w : World K)
        → IsFresh id w.objects
        → let r = connect_any E einprogress id attempts w in
          (r.0.trace ≡ w.trace ++ abandoned einprogress attempts)
          × Made (chosen einprogress attempts) w.objects r
    unfolding connect_any
    connect_any-first id [] w fresh = (sym (append-nil w.trace), (refl, λ j. refl))
    connect_any-first id (a ∷ attempts) w fresh = elim (Bool-cases (works einprogress a)) [
      | inl good ↦
          let (fd, e, made) = attempt-works id a w good in
          rw (good, connect_any-worked id fd a attempts w _ made)
            (
              sym (append-nil w.trace),
              (
                id,
                fd,
                e,
                refl,
                inserted id fd w (fresh id (omega arith)),
                λ j other. ground (arith, lookup-insert id j (channel_new fd) w.objects),
              ),
            )
      | inr bad ↦
          let next = (connect_attempt E einprogress id a w).0 in
          let same = attempt_fails-objects id a w bad (fresh id (omega arith)) in
          let closes_first : next.trace ++ abandoned einprogress attempts
              ≡ w.trace ++ (left a.socket ++ abandoned einprogress attempts) =
            ap (λ (t : List LoopEvent). t ++ abandoned einprogress attempts)
              (attempt_fails-trace id a w bad (fresh id (omega arith)))
            ∙ append_assoc w.trace (left a.socket) (abandoned einprogress attempts) in
          let (closing, made) =
            connect_any-first (suc id) attempts next (λ j more. same j ∙ fresh j (omega arith)) in
          rw (connect_any-failed id a attempts w bad, bad)
            (
              closing ∙ closes_first,
              Made-before (chosen einprogress attempts) w.objects next.objects _ same made,
            )
    ]
