-- ===== src/Listener/Leaks.antt =====
-- What becomes of the descriptor of `tcp_listener` of examples/socket/tcp_listener.cc if its constructor
-- throws.
use ucxpp.Base.{ℕ, ◌≡◌, List, [], ◌∷◌, Bool, not, ◌&&◌, if◌then◌else◌, arith, Bool-cases, inl, inr}
use ucxpp.Base.Int.{ℤ, pos, is_negative, is_zero}
use ucxpp.Errors.{err, RuntimeError, with_errno, with_rc, check_errno, check_rc, check_ptr}
use ucxpp.Listener.{opened, channel_for, bind_any, listener_new}

-- The calls between that of `socket` and the making of the channel all succeed.
abbrev pub prepared : (reuse gai : ℤ) → List (ℤ × ℕ) → (listened : ℤ) → Bool
prepared reuse gai binds listened =
    is_zero reuse && (is_zero gai && (bind_any binds && not (is_negative listened)))

-- If `socket` gives a descriptor and every call up to `listen` succeeds, one `bind` at least, then
-- the constructor of a listener goes on to make the channel that owns the descriptor; otherwise it
-- throws and leaves the descriptor open.
pub listener_new-leaks :
    (fd errno_socket : ℕ) (reuse gai : ℤ) (binds : List (ℤ × ℕ)) (errno : ℕ)
    (listened getfl setfl : ℤ × ℕ)
    → let r = listener_new (pos fd, errno_socket) reuse gai binds errno listened getfl setfl in
      if prepared reuse gai binds listened.0
      then r
        ≡ (opened fd ∷ (channel_for (pos fd) getfl setfl).0, (channel_for (pos fd) getfl setfl).1)
      else (e : RuntimeError) × (r ≡ (opened fd ∷ [], err e))
unfolding listener_new check_errno check_rc check_ptr
listener_new-leaks fd errno_socket reuse gai binds errno (rc, e') getfl setfl =
    elim (Bool-cases (is_zero reuse)) [
      | inr e ↦ rw e (with_rc "failed to set reuse address" reuse, ground (arith, e))
      | inl e ↦ elim (Bool-cases (is_zero gai)) [
        | inr f ↦ rw (e, f) (with_rc "getaddrinfo: %s" gai, ground (arith, e, f))
        | inl f ↦ elim (Bool-cases (bind_any binds)) [
          | inr g ↦ rw (e, f, g) (with_errno "failed to bind" errno, ground (arith, g))
          | inl g ↦ elim (Bool-cases (is_negative rc)) [
            | inl h ↦ rw (e, f, g, h) (with_errno "failed to listen" e', ground (arith, g, h))
            | inr h ↦ rw (e, f, g, h) (ground (arith, g, h))
          ]
        ]
      ]
    ]
