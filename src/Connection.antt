-- ===== src/Connection.antt =====
-- examples/socket/tcp_connection.cc: `rw_awaitable`, which `send` and `recv` of a connection return.
-- What `read` and `write` of the system return, with `errno`, is an argument.
pub mod Transfer
pub mod Connect
pub mod FirstAddress
pub mod Careful
pub mod Suspends
use ucxpp.Base.{ℕ, List, [], ◌∷◌, ◌++◌, Bool, true, false, if◌then◌else◌}
use ucxpp.Base.Int.{ℤ, negsuc, is_negative}
use ucxpp.Errors.{Result, ok, err, check_errno}

-- The calls of the system, and the waits on the channel with the coroutine to resume.
pub data IoEvent : Type 0 where
  sys_read sys_write : (buffer length : ℕ) → IoEvent
  wait_readable wait_writable : (coroutine : ℕ) → IoEvent

pub record RwAwaitable : Type 0 where
  pub buffer_ : ℕ
  pub n_ : ℤ
  pub length_ : ℕ
  pub write_ : Bool

-- `tcp_connection::recv` and `tcp_connection::send`
unfoldable pub recv : (buffer length : ℕ) → RwAwaitable
recv buffer length = record { buffer_ = buffer; n_ = negsuc 0; length_ = length; write_ = false }

unfoldable pub send : (buffer length : ℕ) → RwAwaitable
send buffer length = record { buffer_ = buffer; n_ = negsuc 0; length_ = length; write_ = true }

-- `rw_awaitable::do_io`: the call that it makes.
unfoldable pub do_io : RwAwaitable → IoEvent
do_io a = if a.write_ then sys_write a.buffer_ a.length_ else sys_read a.buffer_ a.length_

-- `rw_awaitable::await_ready`; `would_block` tells EAGAIN and EWOULDBLOCK.
unfoldable pub await_ready :
    (would_block : ℕ → Bool) → RwAwaitable → (io : ℤ × ℕ) → List IoEvent × Result Bool × RwAwaitable
unfolding do_io
await_ready would_block a (n, errno) = (
  do_io a ∷ [],
  if is_negative n
      then if would_block errno
        then ok false
        else elim (check_errno errno n "failed to read write") [ ok u ↦ ok false | err e ↦ err e ]
      else ok true,
  record a { n_ = n },
)

-- `rw_awaitable::await_suspend`; `registered` is what the wait on the channel gives, which throws if epoll
-- refuses the descriptor.
unfoldable pub await_suspend :
    RwAwaitable
    → (coroutine : ℕ) → (registered : Result (Unit {0})) → List IoEvent × Result (Unit {0})
await_suspend a coroutine registered =
    (if a.write_ then wait_writable coroutine ∷ [] else wait_readable coroutine ∷ [], registered)

-- `rw_awaitable::await_resume`; `io` is what a second call gives.
unfoldable pub await_resume : RwAwaitable → (io : ℤ × ℕ) → List IoEvent × Result ℤ
unfolding do_io
await_resume a (n, errno) =
    if is_negative a.n_
    then (
      do_io a ∷ [],
      elim (check_errno errno n "failed to io after readable or writable") [
        | ok u ↦ ok n
        | err e ↦ err e
      ],
    )
    else ([], ok a.n_)

-- What the language makes of `co_await`, up to its result, if the channel becomes ready behind a wait
-- that was accepted.
unfoldable pub io_await :
    (would_block : ℕ → Bool)
    → RwAwaitable
    → (coroutine : ℕ) → (first : ℤ × ℕ) → (registered : Result (Unit {0})) → (second : ℤ × ℕ)
    → List IoEvent × Result ℤ
unfolding await_ready await_suspend await_resume
io_await would_block a coroutine first registered second =
    let (l, ready, a') = await_ready would_block a first in
    let (m, r) = await_resume a' second in
    let (waits, suspended) = await_suspend a' coroutine registered in
    elim ready [
      | err e ↦ (l, err e)
      | ok done ↦
          if done
          then (l ++ m, r)
          else elim suspended [ err e ↦ (l ++ waits, err e) | ok u ↦ (l ++ (waits ++ m), r) ]
    ]
