-- ===== src/EventLoop/Program.antt =====
-- What the coroutines of a program do with channels and the loop of examples/socket while they run:
-- they make channels, wait for them as the awaitables do, and drop them.
use ucxpp.Base.{ℕ, List, [], ◌∷◌, Bool, true, false, Option, none, some, ◌==◌, if◌then◌else◌}
use ucxpp.Base.Dict.{insert}
use ucxpp.Errors.{Result, ok, err}
use ucxpp.EventLoop.{Epoll, World, resumes, raises, emit}
use ucxpp.Channel.{
  channel_new, set_readable_callback, set_writable_callback, set_event_loop, wait_readable,
  wait_writable, channel_destroy,
}

-- A new channel at a fresh address; a coroutine that waits, as `await_suspend` of the awaitables makes
-- it; the last pointer to a channel but that of `poll` given up; a channel taken out of the loop.
pub data Command : Type 0 where
  opens : (id fd : ℕ) → Command
  awaits_readable awaits_writable : (id coroutine : ℕ) → Command
  drops : (id : ℕ) → Command
  leaves : (id : ℕ) → Command

module _ {K : Type 0} where
  -- An exception goes to the coroutine.
  abbrev pub caught : World K × Result (Unit {0}) → World K
  caught (w, ok u) = w
  caught (w, err e) = emit (raises e) w

  abbrev pub is_locked : ℕ → World K → Bool
  is_locked id w = elim w.locked [ none ↦ false | some held ↦ held == id ]

  module _ (E : Epoll K) where
    unfoldable pub exec : Command → World K → World K
    unfolding wait_readable wait_writable channel_destroy set_readable_callback
        set_writable_callback set_event_loop channel_new
    exec (opens id fd) w = record w { objects = insert id (channel_new fd) w.objects }
    exec (awaits_readable id coroutine) w =
        caught (wait_readable E id (set_readable_callback id (some coroutine) w))
    exec (awaits_writable id coroutine) w =
        caught (wait_writable E id (set_writable_callback id (some coroutine) w))
    exec (drops id) w =
        if is_locked id w then record w { doomed = true } else channel_destroy E id w
    exec (leaves id) w = set_event_loop id false w

    unfoldable pub exec_all : List Command → World K → World K
    unfolding exec
    exec_all [] w = w
    exec_all (c ∷ cs) w = exec_all cs (exec c w)

    -- A callback that `poll` runs: `program` says what the resumed coroutine does until it suspends.
    module _ (program : ℕ → World K → List Command) where
      unfoldable pub call : Option ℕ → World K → World K
      unfolding exec_all
      call none w = w
      call (some coroutine) w =
          let resumed = emit (resumes coroutine) w in exec_all (program coroutine resumed) resumed
