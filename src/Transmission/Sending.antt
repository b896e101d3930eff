-- ===== src/Transmission/Sending.antt =====
-- The write loop of examples/ep_transmission.cc.
use ucxpp.Base.{
  ℕ, ◌+◌, ◌-◌, ◌≤◌, ◌<◌, ◌≡◌, refl, ap, ◌∙◌, sym, min, List, [], ◌∷◌, ◌++◌, append_assoc,
  append-nil, false, ltb, length, take, drop, drop_split, take-append-drop, drop_all, arith,
  Bool-cases, inl, inr,
}
use ucxpp.Address.{LocalAddress, local_address_serialize}
use ucxpp.Serdes.Bytes.{Endian}
use ucxpp.Transmission.{Reply, moved, failed, Sent, done, send_loop, send_address}

-- What was sent is a beginning of what there was to send, and all of it if the loop ended.
abbrev IsPrefixSent : (all : List ℕ) → Sent → Type 0
IsPrefixSent all s = (rest : List ℕ) × (s.wire ++ rest ≡ all) × (s.outcome ≡ done → rest ≡ [])

stopped :
    (buffer : List ℕ) (sent : ℕ) (wire : List ℕ)
    → ltb sent (length buffer) ≡ false
    → wire ++ [] ≡ wire ++ drop sent buffer
stopped buffer sent wire h = ap (◌++◌ wire) (sym (drop_all sent buffer (ground arith)))

one_transfer :
    (n sent : ℕ) (buffer wire : List ℕ)
    → (wire ++ take n (drop sent buffer)) ++ drop (sent + n) buffer ≡ wire ++ drop sent buffer
one_transfer n sent buffer wire =
    rw (append_assoc, ← drop_split sent n buffer, take-append-drop n (drop sent buffer))

send_loop-IsPrefixSent :
    (buffer : List ℕ) (sent : ℕ) (wire : List ℕ) (replies : List Reply)
    → IsPrefixSent (wire ++ drop sent buffer) (send_loop buffer sent wire replies)
unfolding send_loop
send_loop-IsPrefixSent buffer sent wire [] = elim (Bool-cases (ltb sent (length buffer))) [
  | inl more ↦ rw more (drop sent buffer, refl, λ e. cc)
  | inr stop ↦ rw stop ([], stopped buffer sent wire stop, λ e. refl)
]
send_loop-IsPrefixSent buffer sent wire (failed x ∷ replies) =
    elim (Bool-cases (ltb sent (length buffer))) [
      | inl more ↦ rw more (drop sent buffer, refl, λ e. cc)
      | inr stop ↦ rw stop ([], stopped buffer sent wire stop, λ e. refl)
    ]
send_loop-IsPrefixSent buffer sent wire (moved q ∷ replies) =
    elim (Bool-cases (ltb sent (length buffer))) [
      | inl more ↦
          let (rest, e, full) =
            send_loop-IsPrefixSent buffer (sent + n) (wire ++ take n (drop sent buffer)) replies in
          rw more (rest, e ∙ one_transfer n sent buffer wire, full)
      | inr stop ↦ rw stop ([], stopped buffer sent wire stop, λ e. refl)
    ]
  where
    n : ℕ
    n = min q (length buffer - sent)

-- Replies that transfer something each.
abbrev pub AllProgress : List Reply → Type 0
AllProgress [] = Unit
AllProgress (moved q ∷ replies) = (0 < q) × AllProgress replies
AllProgress (failed e ∷ replies) = ⊥

send_loop-done :
    (buffer : List ℕ) (sent : ℕ) (wire : List ℕ) (replies : List Reply)
    → AllProgress replies
    → length buffer ≤ sent + length replies
    → (send_loop buffer sent wire replies).outcome ≡ done
unfolding send_loop
send_loop-done buffer sent wire [] p h = ground arith
send_loop-done buffer sent wire (failed x ∷ replies) p h = absurd p
send_loop-done buffer sent wire (moved q ∷ replies) p h = ground (
  arith,
  send_loop-done buffer (sent + min q (length buffer - sent))
      (wire ++ take (min q (length buffer - sent)) (drop sent buffer)) replies p.1,
)

module _ (e : Endian) (memory : ℕ → ℕ) (a : LocalAddress) (replies : List Reply) where
  abbrev pub all_sent : Sent
  all_sent = send_address e memory a replies

  sent-IsPrefixSent : IsPrefixSent (local_address_serialize e memory a) all_sent
  unfolding send_address
  sent-IsPrefixSent = send_loop-IsPrefixSent (local_address_serialize e memory a) 0 [] replies

  -- Whatever the transfers and exceptions, what `send_address` has put on the wire is a beginning of
  -- the serialized address.
  pub send_address-prefix :
      (rest : List ℕ) × (all_sent.wire ++ rest ≡ local_address_serialize e memory a)
  send_address-prefix = let (rest, whole, full) = sent-IsPrefixSent in (rest, whole)

  -- If `send_address` returns, then it has put exactly the serialized address on the wire.
  pub send_address-whole :
      all_sent.outcome ≡ done → all_sent.wire ≡ local_address_serialize e memory a
  send_address-whole ended =
      let (rest, whole, full) = sent-IsPrefixSent in
      sym (append-nil _) ∙ ap (◌++◌ all_sent.wire) (sym (full ended)) ∙ whole

  -- If no call throws, each one transfers something, and there are as many as bytes, then
  -- `send_address` returns with the whole serialized address on the wire.
  pub send_address-done :
      AllProgress replies
      → length (local_address_serialize e memory a) ≤ length replies
      → all_sent ≡ record { outcome = done; wire = local_address_serialize e memory a }
  unfolding send_address
  send_address-done p h =
      let ended =
        send_loop-done (local_address_serialize e memory a) 0 [] replies p (omega arith) in
      λ i. record { outcome = ended i; wire = send_address-whole ended i }
