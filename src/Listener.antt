-- ===== src/Listener.antt =====
-- examples/socket/tcp_listener.cc. What the calls of the system return, with `errno`, is an argument.
pub mod Accepting
pub mod Leaks
pub mod Text
use ucxpp.Base.{ℕ, List, [], ◌∷◌, ◌++◌, Bool, true, false, not, ◌&&◌, ◌==◌, if◌then◌else◌}
use ucxpp.Base.Int.{ℤ, pos, negsuc, is_negative, is_zero}
use ucxpp.Errors.{Result, ok, err, with_rc, with_errno, check_rc, check_ptr, check_errno}
use ucxpp.Channel.{set_nonblocking}

-- What is done with descriptors: one is opened (by `socket` or `accept4`), a channel closes it, a
-- coroutine waits for the listener's. An assertion fails before a channel closes descriptor 0.
pub data SocketEvent : Type 0 where
  opened closing : (fd : ℕ) → SocketEvent
  waits_readable : (coroutine : ℕ) → SocketEvent
  aborts : SocketEvent

-- A call that gives a descriptor.
abbrev pub opening : ℤ → List SocketEvent
opening (pos fd) = opened fd ∷ []
opening (negsuc k) = []

-- A channel that `set_nonblocking` leaves by an exception goes, with its descriptor.
abbrev pub dropping : ℕ → List SocketEvent
dropping fd = if fd == 0 then aborts ∷ closing fd ∷ [] else closing fd ∷ []

-- A new channel made nonblocking: its descriptor.
unfoldable pub channel_for : (fd : ℤ) → (getfl setfl : ℤ × ℕ) → List SocketEvent × Result ℕ
unfolding set_nonblocking
channel_for (pos fd) getfl setfl = elim (set_nonblocking getfl setfl) [
  | ok u ↦ ([], ok fd)
  | err e ↦ (dropping fd, err e)
]
channel_for (negsuc k) getfl setfl = ([], err (with_errno "failed to get fcntl flags" getfl.1))

-- `accept_awaitable`; the listener's channel is not kept.
pub record AcceptAwaitable : Type 0 where
  pub client_fd_ : ℤ

-- `tcp_listener::accept`
unfoldable pub accept : AcceptAwaitable
accept = record { client_fd_ = negsuc 0 }

-- `accept_awaitable::do_io`; `would_block` tells EAGAIN and EWOULDBLOCK.
unfoldable pub accept_io : (would_block : ℕ → Bool) → (accepted : ℤ × ℕ) → Result ℤ
accept_io would_block (client_fd, errno) =
    if is_negative client_fd && would_block errno
    then ok client_fd
    else elim (check_errno errno client_fd "failed to accept") [
      | ok u ↦ ok client_fd
      | err e ↦ err e
    ]

-- `accept_awaitable::await_ready`
unfoldable pub accept_ready :
    (would_block : ℕ → Bool)
    → AcceptAwaitable
    → (accepted : ℤ × ℕ) → Result (Bool × AcceptAwaitable)
unfolding accept_io
accept_ready would_block a accepted = elim (accept_io would_block accepted) [
  | err e ↦ err e
  | ok fd ↦ ok (not (is_negative fd) && not (is_zero fd), record a { client_fd_ = fd })
]

-- `accept_awaitable::await_suspend`; `registered` is what the wait on the channel gives, which throws if
-- epoll refuses the descriptor.
unfoldable pub accept_suspend :
    (coroutine : ℕ) → (registered : Result (Unit {0})) → List SocketEvent × Result (Unit {0})
accept_suspend coroutine registered = (waits_readable coroutine ∷ [], registered)

-- `accept_awaitable::await_resume`; `accepted` is what a second call gives.
unfoldable pub accept_resume :
    (would_block : ℕ → Bool)
    → AcceptAwaitable
    → (accepted getfl setfl : ℤ × ℕ) → List SocketEvent × Result ℕ
unfolding accept_io channel_for
accept_resume would_block a accepted getfl setfl =
    let again = is_negative a.client_fd_ in
    let io = if again then accept_io would_block accepted else ok a.client_fd_ in
    let calls = if again then opening accepted.0 else [] in
    elim io [
      | err e ↦ (calls, err e)
      | ok fd ↦ elim (check_errno accepted.1 fd "could not accept after readable") [
        | err e ↦ (calls, err e)
        | ok u ↦ let (more, r) = channel_for fd getfl setfl in (calls ++ more, r)
      ]
    ]

-- What the language makes of `co_await`, up to its result, if the channel becomes ready behind a wait
-- that was accepted.
unfoldable pub accept_await :
    (would_block : ℕ → Bool)
    → (coroutine : ℕ) → (first : ℤ × ℕ) → (registered : Result (Unit {0}))
    → (second getfl setfl : ℤ × ℕ) → List SocketEvent × Result ℕ
unfolding accept accept_ready accept_suspend accept_resume
accept_await would_block coroutine first registered second getfl setfl =
    let (waits, suspended) = accept_suspend coroutine registered in
    elim (accept_ready would_block accept first) [
      | err e ↦ (opening first.0, err e)
      | ok p ↦
          let (m, r) = accept_resume would_block p.1 second getfl setfl in
          if p.0 then (opening first.0 ++ m, r) else elim suspended [
            | err e ↦ (opening first.0 ++ waits, err e)
            | ok u ↦ (opening first.0 ++ (waits ++ m), r)
          ]
    ]

-- The loop over the addresses: whether one can be bound.
unfoldable pub bind_any : List (ℤ × ℕ) → Bool
bind_any [] = false
bind_any ((rc, errno) ∷ binds) =
    let rest = bind_any binds in
    elim (check_errno errno rc "failed to bind") [ ok u ↦ true | err e ↦ rest ]

-- `tcp_listener::tcp_listener`: the calls of `socket`, `setsockopt`, `getaddrinfo` (whose code stands
-- for its text), `bind` for each address, `listen` and `fcntl`; `errno` is read once more if no address
-- is left. The listener is its descriptor.
unfoldable pub listener_new :
    (socket : ℤ × ℕ)
    → (reuse gai : ℤ) → (binds : List (ℤ × ℕ)) → (errno : ℕ) → (listened getfl setfl : ℤ × ℕ)
    → List SocketEvent × Result ℕ
unfolding bind_any channel_for
listener_new (fd, errno_socket) reuse gai binds errno (rc, errno_listen) getfl setfl =
    elim (check_errno errno_socket fd "failed to create socket") [
      | err e ↦ ([], err e)
      | ok u ↦ elim (check_rc reuse "failed to set reuse address") [
        | err e ↦ (opening fd, err e)
        | ok u ↦
            if not (is_zero gai)
            then (opening fd, err (with_rc "getaddrinfo: %s" gai))
            else elim (check_ptr errno (if bind_any binds then 1 else 0) "failed to bind") [
              | err e ↦ (opening fd, err e)
              | ok u ↦ elim (check_errno errno_listen rc "failed to listen") [
                | err e ↦ (opening fd, err e)
                | ok u ↦ let (more, r) = channel_for fd getfl setfl in (opening fd ++ more, r)
              ]
            ]
      ]
    ]
