-- ===== src/Channel.antt =====
-- examples/socket/channel.cc. A channel is named by its address `id`.
use ucxpp.Base.{ℕ, Bool, true, Option, none, some, ◌==◌, if◌then◌else◌}
use ucxpp.Base.Int.{ℤ}
use ucxpp.Base.Dict.{lookup, erase, adjust}
use ucxpp.Errors.{Result, ok, err, check_errno}
use ucxpp.EventLoop.{
  Epoll, Channel, World, closes, undefined, emit, register_read, register_write, deregister,
}

-- `channel::channel` with a loop.
unfoldable pub channel_new : (fd : ℕ) → Channel
channel_new fd = record {
  fd_ = fd;
  has_loop = true;
  readable_callback_ = none;
  writable_callback_ = none;
}

-- `channel::set_nonblocking`; `got` and `set` are what the two calls of `fcntl` return, with `errno`.
unfoldable pub set_nonblocking : (got set : ℤ × ℕ) → Result (Unit {0})
set_nonblocking (opts, errno) (rc, errno') =
    elim (check_errno errno opts "failed to get fcntl flags") [
      | ok u ↦ check_errno errno' rc "failed to set fcntl flags"
      | err e ↦ err e
    ]

module _ {K : Type 0} where
  -- `channel::set_readable_callback`, `channel::set_writable_callback` and `channel::set_event_loop`
  unfoldable pub set_readable_callback : (id : ℕ) → Option ℕ → World K → World K
  set_readable_callback id callback w = record w {
    objects = adjust id (λ c. record c { readable_callback_ = callback }) w.objects;
  }

  unfoldable pub set_writable_callback : (id : ℕ) → Option ℕ → World K → World K
  set_writable_callback id callback w = record w {
    objects = adjust id (λ c. record c { writable_callback_ = callback }) w.objects;
  }

  unfoldable pub set_event_loop : (id : ℕ) → Bool → World K → World K
  set_event_loop id has_loop w = record w {
    objects = adjust id (λ c. record c { has_loop = has_loop }) w.objects;
  }

  -- A member function on the channel at `id`, which follows `loop_`.
  abbrev pub on_loop :
      (id : ℕ)
      → (Channel → World K → World K × Result (Unit {0}))
      → World K
      → World K × Result (Unit {0})
  on_loop id f w = elim (lookup id w.objects) [
    | none ↦ (emit undefined w, ok tt)
    | some c ↦ if c.has_loop then f c w else (emit undefined w, ok tt)
  ]

  module _ (E : Epoll K) where
    -- `channel::wait_readable` and `channel::wait_writable`
    unfoldable pub wait_readable : (id : ℕ) → World K → World K × Result (Unit {0})
    unfolding register_read
    wait_readable id w = on_loop id (λ c. register_read E id c.fd_) w

    unfoldable pub wait_writable : (id : ℕ) → World K → World K × Result (Unit {0})
    unfolding register_write
    wait_writable id w = on_loop id (λ c. register_write E id c.fd_) w

    -- `channel::~channel`. An exception that leaves it ends the program.
    unfoldable pub channel_destroy : (id : ℕ) → World K → World K
    unfolding deregister
    channel_destroy id w = elim (lookup id w.objects) [
      | none ↦ w
      | some c ↦
          let gone = λ (v : World K). record v { objects = erase id v.objects } in
          if c.has_loop
          then (let r = deregister E c.fd_ w in
              elim r.1 [
                | ok u ↦ gone (emit (closes c.fd_) (if c.fd_ == 0 then emit undefined r.0 else r.0))
                | err e ↦ gone (emit undefined r.0)
              ])
          else gone w
    ]

    -- `channel::readable_callback` and `channel::writable_callback`, with what the callback does.
    module _ (call : Option ℕ → World K → World K) where
      unfoldable pub readable_callback : (id : ℕ) → World K → World K × Result (Unit {0})
      unfolding deregister
      readable_callback id w =
          on_loop id
            (λ c v.
              let r = deregister E c.fd_ v in
              elim r.1 [ ok u ↦ (call c.readable_callback_ r.0, ok tt) | err e ↦ (r.0, err e) ])
            w

      unfoldable pub writable_callback : (id : ℕ) → World K → World K × Result (Unit {0})
      unfolding deregister
      writable_callback id w =
          on_loop id
            (λ c v.
              let r = deregister E c.fd_ v in
              elim r.1 [ ok u ↦ (call c.writable_callback_ r.0, ok tt) | err e ↦ (r.0, err e) ])
            w
