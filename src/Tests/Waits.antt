-- ===== src/Tests/Waits.antt =====
-- examples/worker_epoll.cc and examples/socket/tcp_connection.cc on concrete answers.
use ucxpp.Base.{◌≡◌, refl, [], ◌∷◌, ◌==◌}
use ucxpp.Base.Int.{pos, negsuc}
use ucxpp.Errors.{ucs_ok, ucs_err_busy, ok}
use ucxpp.Ucx.{ucp_worker_progress, ucp_worker_arm}
use ucxpp.WorkerEpoll.{readable_callback, wait_readable}
use ucxpp.WorkerEpoll.Rounds.{readable_callback-rounds}
use ucxpp.Connection.{send, io_await, sys_write, wait_writable, do_io, await_suspend}
use ucxpp.Connection.Transfer.{io_await-transferred}
use ucxpp.Tests.{worker}

readable_callback-rounds_example :
    readable_callback worker (3 ∷ 0 ∷ 1 ∷ 1 ∷ 0 ∷ []) (ucs_err_busy ∷ ucs_ok ∷ []) 3 ≡ (
      ucp_worker_progress 4
          ∷ ucp_worker_progress 4
          ∷ ucp_worker_arm 4
          ∷ ucp_worker_progress 4
          ∷ ucp_worker_progress 4
          ∷ ucp_worker_progress 4
          ∷ ucp_worker_arm 4
          ∷ [],
      wait_readable,
    )
readable_callback-rounds_example =
    readable_callback-rounds worker ((3 ∷ []) ∷ []) (1 ∷ 1 ∷ []) ucs_ok 3 ((refl, tt), tt)
      (refl, (refl, tt)) refl

-- The first write would have blocked, by the error number 11.
io_await-transferred_example :
    ((io_await (λ e. e == 11) (send 64 8) 9 (negsuc 0, 11) (ok tt) (pos 5, 0)).1 ≡ ok (pos 5))
    × ((io_await (λ e. e == 11) (send 64 8) 9 (negsuc 0, 11) (ok tt) (pos 5, 0)).0
        ≡ sys_write 64 8 ∷ wait_writable 9 ∷ sys_write 64 8 ∷ [])
unfolding send do_io await_suspend
io_await-transferred_example =
    io_await-transferred (λ e. e == 11) (send 64 8) 9 (negsuc 0, 11) (ok tt) (pos 5, 0)
