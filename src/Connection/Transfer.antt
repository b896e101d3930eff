-- ===== src/Connection/Transfer.antt =====
-- What a `co_await` on `send` or `recv` of examples/socket/tcp_connection.cc comes to.
use ucxpp.Base.{ℕ, ◌≡◌, refl, List, [], ◌∷◌, Bool, true, false, if◌then◌else◌, arith}
use ucxpp.Base.Int.{ℤ, pos, negsuc}
use ucxpp.Errors.{Result, ok, err, with_errno, check_errno}
use ucxpp.Connection.{
  IoEvent, wait_readable, wait_writable, RwAwaitable, do_io, await_suspend, io_await,
}

-- What is documented of the result: the first call's count, or the second one's if the first would
-- have blocked, or an exception with the `errno` of the call that failed; or that of the wait in between,
-- if epoll refused it.
abbrev pub transferred :
    (would_block : ℕ → Bool)
    → (first : ℤ × ℕ) → (registered : Result (Unit {0})) → (second : ℤ × ℕ) → Result ℕ
transferred would_block (pos n, errno) registered second = ok n
transferred would_block (negsuc k, errno) (err e) second =
    if would_block errno then err e else err (with_errno "failed to read write" errno)
transferred would_block (negsuc k, errno) (ok u) (pos n, errno') =
    if would_block errno then ok n else err (with_errno "failed to read write" errno)
transferred would_block (negsuc k, errno) (ok u) (negsuc k', errno') =
    if would_block errno
    then err (with_errno "failed to io after readable or writable" errno')
    else err (with_errno "failed to read write" errno)

abbrev pub as_int : Result ℕ → Result ℤ
as_int (ok n) = ok (pos n)
as_int (err e) = err e

abbrev pub blocks : (would_block : ℕ → Bool) → ℤ × ℕ → Bool
blocks would_block (pos n, errno) = false
blocks would_block (negsuc k, errno) = would_block errno

abbrev pub wait_of : RwAwaitable → (coroutine : ℕ) → IoEvent
wait_of a coroutine = if a.write_ then wait_writable coroutine else wait_readable coroutine

-- What is called: a second call is made only behind a wait that was accepted.
abbrev pub calls :
    (blocked : Bool) → (registered : Result (Unit {0})) → (io wait : IoEvent) → List IoEvent
calls false registered io wait = io ∷ []
calls true (ok u) io wait = io ∷ wait ∷ io ∷ []
calls true (err e) io wait = io ∷ wait ∷ []

-- A `co_await` on `send` or `recv` never gives a negative number: it gives the count of the first
-- call of the system, or of a second one if the first would have blocked, or throws for the call
-- that failed, or for the wait in between if epoll refused the descriptor. It waits for the channel
-- exactly if the first call would have blocked, and makes the second call exactly behind a wait that
-- was accepted.
pub io_await-transferred :
    (would_block : ℕ → Bool) (a : RwAwaitable) (coroutine : ℕ) (first : ℤ × ℕ)
    (registered : Result (Unit {0})) (second : ℤ × ℕ)
    → ((io_await would_block a coroutine first registered second).1
        ≡ as_int (transferred would_block first registered second))
      × ((io_await would_block a coroutine first registered second).0
          ≡ calls (blocks would_block first) registered (do_io a) (wait_of a coroutine))
unfolding io_await check_errno do_io await_suspend
io_await-transferred would_block a coroutine (pos n, errno) registered second = (refl, refl)
io_await-transferred would_block a coroutine (negsuc k, errno) (err e) (n, errno') = ground arith
io_await-transferred would_block a coroutine (negsuc k, errno) (ok u) (pos n, errno') = ground arith
io_await-transferred would_block a coroutine (negsuc k, errno) (ok u) (negsuc k', errno') =
    ground arith
