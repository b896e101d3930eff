-- ===== src/Tests/Sockets.antt =====
-- examples/socket/tcp_listener.cc and the making of a connection on concrete answers of the system.
use ucxpp.Base.{ℕ, ◌+◌, ◌≡◌, refl, arith, List, [], ◌∷◌, ◌==◌, none, some, Bool}
use ucxpp.Base.Int.{pos, negsuc}
use ucxpp.Base.Dict.{Dict, lookup}
use ucxpp.Errors.{ok, check_errno}
use ucxpp.EventLoop.{Interest, World, closes}
use ucxpp.Channel.{set_nonblocking}
use ucxpp.EventLoop.Consistent.{Consistent}
use ucxpp.Connection.Connect.{Attempt, connect_any, connect_start}
use ucxpp.Connection.Suspends.{IsAwaiting, connect_start-IsAwaiting}
use ucxpp.Connection.FirstAddress.{chosen, Made, connect_any-first}
use ucxpp.Listener.{accept_await}
use ucxpp.Listener.Accepting.{accept_await-peer, opens, closings, returned}
use ucxpp.Tests.Loops.{epoll, world}

abbrev empty : World (Dict Interest)
empty = record world { kernel = []; channels_ = []; objects = [] }

-- No socket, a connection that is refused, and one that is under way: EINPROGRESS is 115.
abbrev attempts : List Attempt
attempts =
    record { socket = none; getfl = (pos 0, 0); setfl = (pos 0, 0); connect = (pos 0, 0) }
    ∷ record { socket = some 6; getfl = (pos 0, 0); setfl = (pos 0, 0); connect = (negsuc 0, 111) }
    ∷ record { socket = some 7; getfl = (pos 0, 0); setfl = (pos 0, 0); connect = (negsuc 0, 115) }
    ∷ []

connect_any-first_example :
    let r = connect_any epoll 115 1 attempts empty in
    (r.0.trace ≡ closes 6 ∷ []) × Made (chosen 115 attempts) [] r
unfolding lookup
connect_any-first_example = connect_any-first epoll 115 1 attempts empty (λ j more. refl)

abbrev is_eagain : ℕ → Bool
is_eagain errno = errno == 11

accept_await-peer_example :
    let r = accept_await is_eagain 2 (negsuc 0, 11) (ok tt) (pos 9, 0) (pos 0, 0) (pos 0, 0) in
    (r.1 ≡ ok 9) × (opens r.0 ≡ closings r.0 + returned r.1 + 0)
unfolding check_errno set_nonblocking
accept_await-peer_example =
    accept_await-peer is_eagain 2 (negsuc 0, 11) (ok tt) (pos 9, 0) (pos 0, 0) (pos 0, 0)

empty-Consistent : Consistent epoll empty
unfolding lookup
empty-Consistent = record { known = λ fd. refl; living = λ fd id h. absurd (ground arith) }

connect_start-IsAwaiting_example :
    IsAwaiting epoll 115 4
      (connect_any epoll 115 1 attempts empty).0
      (connect_start epoll 115 1 (pos 0) attempts 4 empty)
unfolding lookup
connect_start-IsAwaiting_example =
    connect_start-IsAwaiting epoll 115 1 (pos 0) attempts 4 empty (λ j more. refl)
      ((λ fd e. refl), ((λ fd e. refl), ((λ fd e. refl), tt))) empty-Consistent
