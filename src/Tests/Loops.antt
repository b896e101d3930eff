-- ===== src/Tests/Loops.antt =====
-- examples/socket/event_loop.cc and its channels on a concrete epoll.
use ucxpp.Base.{
  ℕ, ◌≡◌, refl, sym, List, [], ◌∷◌, true, false, none, some, ◌==◌, ==_iff, if◌then◌else◌, arith,
  Bool-cases, inl, inr,
}
use ucxpp.Base.Int.{ℤ, pos, negsuc, is_negative}
use ucxpp.Base.Dict.{Dict, lookup, insert, erase, is_some, lookup-insert, lookup-erase}
use ucxpp.Errors.{RuntimeError, ok, err, check_errno}
use ucxpp.EventLoop.{
  Epoll, Interest, reads, Channel, World, undefined, has_failed, resumes, emit, register_channel,
}
use ucxpp.EventLoop.Program.{Command, awaits_writable, drops, exec, call}
use ucxpp.EventLoop.Polling.{Ready, dispatch, release, poll}
use ucxpp.EventLoop.Consistent.{Consistent, IsIdle}
use ucxpp.EventLoop.Waits.{Allowed, waits, update, exec-Allowed}
use ucxpp.EventLoop.Firing.{taken, dispatch_fires}
use ucxpp.EventLoop.Steady.{poll-Consistent}
use ucxpp.EventLoop.Running.{Wait}
use ucxpp.EventLoop.Dangling.{second_wait-undefined, error_event-both}

-- An interest list. EEXIST is 17 and ENOENT 2.
abbrev added : Dict Interest → ℕ → Interest → (ℤ × ℕ) × Dict Interest
added k fd i = if is_some (lookup fd k) then ((negsuc 0, 17), k) else ((pos 0, 0), insert fd i k)

abbrev deleted : Dict Interest → ℕ → (ℤ × ℕ) × Dict Interest
deleted k fd = if is_some (lookup fd k) then ((pos 0, 0), erase fd k) else ((negsuc 0, 2), k)

pub added-interest :
    (k : Dict Interest) (fd : ℕ) (i : Interest) (fd' : ℕ)
    → lookup fd' (added k fd i).1 ≡ (
        if is_negative (added k fd i).0.0
        then lookup fd' k
        else if fd' == fd
        then some i
        else lookup fd' k)
added-interest k fd i fd' = ground (arith, lookup-insert fd fd' i k)

pub deleted-interest :
    (k : Dict Interest) (fd fd' : ℕ)
    → lookup fd' (deleted k fd).1 ≡ (
        if is_negative (deleted k fd).0.0
        then lookup fd' k
        else if fd' == fd
        then none
        else lookup fd' k)
deleted-interest k fd fd' = ground (arith, lookup-erase fd fd' k)

pub added_twice :
    (k : Dict Interest) (fd : ℕ) (i j : Interest)
    → lookup fd k ≡ some j
    → is_negative (added k fd i).0.0 ≡ true
added_twice k fd i j h = ground arith

pub deleted_registered :
    (k : Dict Interest) (fd : ℕ) (j : Interest)
    → lookup fd k ≡ some j
    → is_negative (deleted k fd).0.0 ≡ false
deleted_registered k fd j h = ground arith

pub deleted_missing :
    (k : Dict Interest) (fd : ℕ)
    → lookup fd k ≡ none
    → (is_negative (deleted k fd).0.0 ≡ true) × ((deleted k fd).0.1 ≡ 2)
deleted_missing k fd h = (ground arith, ground arith)

abbrev pub epoll : Epoll (Dict Interest)
epoll = record {
  interest = λ k fd. lookup fd k;
  add = added;
  del = deleted;
  enoent = 2;
  interest-add = added-interest;
  add_twice = added_twice;
  interest-del = deleted-interest;
  del_registered = deleted_registered;
  del_missing = deleted_missing;
}

-- The channel at 1 waits to read from descriptor 7, for the coroutine 5, and once waited to write, for
-- 6; the one at 2 does not wait.
abbrev reader : Channel
reader = record {
  fd_ = 7;
  has_loop = true;
  readable_callback_ = some 5;
  writable_callback_ = some 6;
}

abbrev writer : Channel
writer = record { fd_ = 8; has_loop = true; readable_callback_ = none; writable_callback_ = none }

abbrev pub world : World (Dict Interest)
world = record {
  kernel = (7, reads) ∷ [];
  channels_ = (7, 1) ∷ [];
  objects = (1, reader) ∷ (2, writer) ∷ [];
  locked = none;
  doomed = false;
  close_triggered = false;
  trace = [];
}

pub world-Consistent : Consistent epoll world
unfolding lookup
world-Consistent = record {
  known = λ fd. ground arith;
  living = λ fd id h. elim (Bool-cases (fd == 7)) [
    | inl e ↦
        let same : fd ≡ 7 = (==_iff fd 7).0 e in
        let one : id ≡ 1 = ground arith in (reader, rw one refl, sym same, refl)
    | inr e ↦ absurd (ground (arith, e))
  ];
}

writer-IsIdle : IsIdle epoll 2 writer world
unfolding lookup
writer-IsIdle = record { here = refl; on_loop = refl; free = refl }

exec-Allowed_example :
    Allowed epoll (awaits_writable 2 9) world (exec epoll (awaits_writable 2 9) world)
    × Consistent epoll (exec epoll (awaits_writable 2 9) world)
exec-Allowed_example =
    exec-Allowed epoll (awaits_writable 2 9) world (writer, writer-IsIdle) world-Consistent

-- A coroutine that drops both channels.
abbrev program : ℕ → World (Dict Interest) → List Command
program coroutine w = drops 1 ∷ drops 2 ∷ []

abbrev readable : Ready
readable = record { fd = 7; readable = true; writable = false; error = false }

dispatch_fires_example :
    (id : ℕ) × (dispatch epoll program 3 readable world ≡ (
      release epoll program id (call epoll program (some 5) (taken epoll program id 7 world)),
      ok tt,
    ))
    × (waits epoll (taken epoll program id 7 world) ≡ update (waits epoll world) 7 none)
    × Consistent epoll (taken epoll program id 7 world)
unfolding lookup
dispatch_fires_example =
    dispatch_fires epoll program 3 readable reads (some 5) world refl world-Consistent refl
      (refl, refl, refl)

abbrev closing : Ready
closing = record { fd = 3; readable = true; writable = false; error = false }

poll-Consistent_example :
    Consistent epoll (poll epoll program 3 4 (pos 2, 0) (readable ∷ closing ∷ []) world).0
poll-Consistent_example =
    poll-Consistent epoll program (λ coroutine w v. (tt, (tt, tt))) 3 4 (pos 2, 0)
      (readable ∷ closing ∷ []) world (refl, (refl, tt)) world-Consistent

-- The second event is for a descriptor that is not known any more, so the third one is not looked at.
poll_aborts :
    let (w, r) = poll epoll program 3 4 (pos 3, 0) (readable ∷ readable ∷ closing ∷ []) world in
    (has_failed w.trace ≡ true) × (w.close_triggered ≡ false)
unfolding poll lookup insert erase check_errno
poll_aborts = (refl, refl)

-- Both channels go, the first one after its own callback.
poll_drops : (poll epoll program 3 4 (pos 1, 0) (readable ∷ []) world).0.objects ≡ []
unfolding poll lookup insert erase check_errno
poll_drops = refl

second_wait-undefined_example :
    let (w', r) = register_channel epoll 1 7 reads world in
    ((e : RuntimeError) × (r ≡ err e))
    × (lookup 7 w'.kernel ≡ some reads)
    × (dispatch epoll program 3 readable w' ≡ (emit undefined w', ok tt))
unfolding lookup
second_wait-undefined_example =
    second_wait-undefined epoll program 3 readable 1 reads reads world refl refl

abbrev silent : ℕ → World (Dict Interest) → List Command
silent coroutine w = []

abbrev failed : Ready
failed = record { fd = 7; readable = true; writable = false; error = true }

error_event-both_example :
    let r = dispatch epoll silent 3 failed world in
    (r.0.trace ≡ resumes 5 ∷ resumes 6 ∷ []) × (lookup 7 r.0.channels_ ≡ none)
unfolding lookup
error_event-both_example =
    error_event-both epoll silent 3 failed 1 reader world (λ coroutine w. refl) refl refl refl refl
      refl refl refl

abbrev first_wait : Wait
first_wait = record { waited = (pos 1, 0); events = readable ∷ [] }

abbrev last_wait : Wait
last_wait = record { waited = (pos 1, 0); events = closing ∷ [] }
