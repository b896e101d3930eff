-- ===== src/Connection/Connect.antt =====
-- examples/socket/tcp_connection.cc: `connect_awaitable`. What the calls of the system return, with
-- `errno`, is an argument: `getaddrinfo` gives a list of addresses, with one `Attempt` each.
use ucxpp.Base.{
  ℕ, suc, List, [], ◌∷◌, Bool, true, false, not, ◌&&◌, Option, none, some, ◌==◌, if◌then◌else◌,
}
use ucxpp.Base.Int.{ℤ, is_negative, is_zero}
use ucxpp.Base.Dict.{insert}
use ucxpp.Errors.{Result, ok, err, plain, with_rc, check_rc, check_errno}
use ucxpp.EventLoop.{Epoll, World}
use ucxpp.Channel.{
  channel_new, set_nonblocking, set_writable_callback, wait_writable, channel_destroy,
}

-- What the system does with one address: `socket` gives a descriptor or -1, `fcntl` is called twice.
pub record Attempt : Type 0 where
  pub socket : Option ℕ
  pub getfl : ℤ × ℕ
  pub setfl : ℤ × ℕ
  pub connect : ℤ × ℕ

-- `channel_` is a channel's address.
pub record ConnectAwaitable : Type 0 where
  pub rc_ : ℤ
  pub channel_ : ℕ

-- `connect_awaitable::await_ready`
unfoldable pub connect_ready : ConnectAwaitable → Bool
connect_ready a = is_zero a.rc_

module _ {K : Type 0} where
  module _ (E : Epoll K) (einprogress : ℕ) where
    -- One address. The channel made for it, at `id`, goes if this does not work.
    unfoldable pub connect_attempt : (id : ℕ) → Attempt → World K → World K × Option ℤ
    unfolding channel_new set_nonblocking channel_destroy
    connect_attempt id a w = elim a.socket [
      | none ↦ (w, none)
      | some fd ↦
          let made = record w { objects = insert id (channel_new fd) w.objects } in
          elim (set_nonblocking a.getfl a.setfl) [
            | err e ↦ (channel_destroy E id made, none)
            | ok u ↦
                let (rc, errno) = a.connect in
                if is_negative rc && not (errno == einprogress)
                then (channel_destroy E id made, none)
                else (made, some rc)
          ]
    ]

    -- The loop over the addresses; every attempt has a fresh address for its channel.
    unfoldable pub connect_any :
        (id : ℕ) → List Attempt → World K → World K × Option ConnectAwaitable
    unfolding connect_attempt
    connect_any id [] w = (w, none)
    connect_any id (a ∷ attempts) w =
        let r = connect_attempt id a w in
        let rest = connect_any (suc id) attempts r.0 in
        elim r.1 [ none ↦ rest | some rc ↦ (r.0, some (record { rc_ = rc; channel_ = id })) ]

    -- The constructor. The text that `gai_strerror` gives stands as its code.
    unfoldable pub connect_new :
        (id : ℕ) → (gai : ℤ) → List Attempt → World K → World K × Result ConnectAwaitable
    unfolding connect_any
    connect_new id gai attempts w =
        let r = connect_any id attempts w in
        if not (is_zero gai)
        then (w, err (with_rc "failed to getaddrinfo: %s" gai))
        else elim r.1 [ none ↦ (r.0, err (plain "failed to connect")) | some a ↦ (r.0, ok a) ]

    -- `connect_awaitable::await_suspend`
    unfoldable pub connect_suspend :
        ConnectAwaitable → (coroutine : ℕ) → World K → World K × Result (Unit {0})
    unfolding set_writable_callback wait_writable
    connect_suspend a coroutine w =
        wait_writable E a.channel_ (set_writable_callback a.channel_ (some coroutine) w)

    -- What the language makes of `co_await` up to the point at which it suspends or goes on: whether it
    -- goes on.
    unfoldable pub connect_start :
        (id : ℕ)
        → (gai : ℤ) → List Attempt
        → (coroutine : ℕ) → World K
        → World K × Result (Bool × ConnectAwaitable)
    unfolding connect_new connect_ready connect_suspend
    connect_start id gai attempts coroutine w =
        let r = connect_new id gai attempts w in
        elim r.1 [
          | err e ↦ (r.0, err e)
          | ok a ↦
              if connect_ready a
              then (r.0, ok (true, a))
              else (let s = connect_suspend a coroutine r.0 in
                  elim s.1 [ err e ↦ (s.0, err e) | ok u ↦ (s.0, ok (false, a)) ])
        ]

-- `connect_awaitable::await_resume`; `got` is what `getsockopt` returns, and `error` what it stores.
-- The connection is its channel.
unfoldable pub connect_resume : ConnectAwaitable → (got : ℤ × ℕ) → (error : ℤ) → Result ℕ
connect_resume a (status, errno) error =
    elim (check_errno errno status "failed to get socket error") [
      | err e ↦ err e
      | ok u ↦ elim (check_rc error "failed to connect") [ err e ↦ err e | ok v ↦ ok a.channel_ ]
    ]
