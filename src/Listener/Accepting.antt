-- ===== src/Listener/Accepting.antt =====
-- What a `co_await` on `accept` of examples/socket/tcp_listener.cc comes to.
use ucxpp.Base.{ℕ, zero, suc, ◌+◌, ◌≡◌, List, [], ◌∷◌, Bool, if◌then◌else◌, arith}
use ucxpp.Base.Int.{ℤ, pos, negsuc}
use ucxpp.Errors.{Result, ok, err, with_errno, check_errno}
use ucxpp.Channel.{set_nonblocking}
use ucxpp.Listener.{SocketEvent, opened, closing, waits_readable, aborts, accept_await}

-- How many descriptors are opened, and closed.
abbrev pub opens : List SocketEvent → ℕ
opens [] = 0
opens (opened fd ∷ l) = suc (opens l)
opens (closing fd ∷ l) = opens l
opens (waits_readable coroutine ∷ l) = opens l
opens (aborts ∷ l) = opens l

abbrev pub closings : List SocketEvent → ℕ
closings [] = 0
closings (opened fd ∷ l) = closings l
closings (closing fd ∷ l) = suc (closings l)
closings (waits_readable coroutine ∷ l) = closings l
closings (aborts ∷ l) = closings l

abbrev pub returned : {A : Type 0} → Result A → ℕ
returned (ok a) = 1
returned (err e) = 0

-- The connection that is accepted: that of the first call, or that of a second one if the first would
-- have blocked. Descriptor 0 is taken for none: the coroutine waits for the channel, and then goes on
-- with it.
abbrev pub peer :
    (would_block : ℕ → Bool)
    → (first : ℤ × ℕ) → (registered : Result (Unit {0})) → (second : ℤ × ℕ) → Result ℕ
peer would_block (pos zero, errno) (err e) second = err e
peer would_block (pos zero, errno) (ok u) second = ok 0
peer would_block (pos (suc n), errno) registered second = ok (suc n)
peer would_block (negsuc k, errno) (err e) second =
    if would_block errno then err e else err (with_errno "failed to accept" errno)
peer would_block (negsuc k, errno) (ok u) (pos n, errno') =
    if would_block errno then ok n else err (with_errno "failed to accept" errno)
peer would_block (negsuc k, errno) (ok u) (negsuc k', errno') =
    if would_block errno
    then (if would_block errno'
        then err (with_errno "could not accept after readable" errno')
        else err (with_errno "failed to accept" errno'))
    else err (with_errno "failed to accept" errno)

-- The connections accepted that nobody holds: descriptor 0, where the wait behind it is refused.
abbrev pub lost : (first : ℤ × ℕ) → (registered : Result (Unit {0})) → ℕ
lost (pos zero, errno) (err e) = 1
lost _ _ = 0

-- The descriptor made nonblocking.
abbrev pub nonblocking : (getfl setfl : ℤ × ℕ) → Result ℕ → Result ℕ
nonblocking getfl setfl (err e) = err e
nonblocking getfl setfl (ok fd) = elim (set_nonblocking getfl setfl) [
  | ok u ↦ ok fd
  | err e ↦ err e
]

-- A `co_await` on `accept` gives the connection of the first call, or of a second one if the first
-- would have blocked, made nonblocking, or throws for the call that failed, or for the wait in between
-- if epoll refused the descriptor; as many descriptors are accepted as are closed, and one more if it
-- gives one, or if the first call gave descriptor 0, for which it waits too, and the wait was refused.
pub accept_await-peer :
    (would_block : ℕ → Bool) (coroutine : ℕ) (first : ℤ × ℕ) (registered : Result (Unit {0}))
    (second getfl setfl : ℤ × ℕ)
    → let r = accept_await would_block coroutine first registered second getfl setfl in
      (r.1 ≡ nonblocking getfl setfl (peer would_block first registered second))
      × (opens r.0 ≡ closings r.0 + returned r.1 + lost first registered)
unfolding accept_await set_nonblocking check_errno
accept_await-peer would_block coroutine (pos zero, errno) (err x) second (g, e) (s, e') =
    (ground arith, ground arith)
accept_await-peer would_block coroutine (pos zero, errno) (ok u) second (g, e) (s, e') =
    (ground arith, ground arith)
accept_await-peer would_block coroutine (pos (suc n), errno) registered second (g, e) (s, e') =
    (ground arith, ground arith)
accept_await-peer would_block coroutine (negsuc k, errno) (err x) (n, errno') (g, e) (s, e') =
    (ground arith, ground arith)
accept_await-peer would_block coroutine (negsuc k, errno) (ok u) (pos n, errno') (g, e) (s, e') =
    (ground arith, ground arith)
accept_await-peer would_block coroutine (negsuc k, errno) (ok u) (negsuc k', errno') (g, e)
      (s, e') =
    (ground arith, ground arith)
