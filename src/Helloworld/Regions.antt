-- ===== src/Helloworld/Regions.antt =====
-- examples/helloworld.cc: `send_mr` and `receive_mr`, over the byte stream of an endpoint. Each
-- `stream_recv` is answered by a number `q`, which the environment chooses: it gives `q + 1` bytes, but no
-- more than it asks for and no more than have arrived. Where nothing has arrived it waits.
use mathlib.Core.Option.{map as map_option}
use ucxpp.Base.{
  ℕ, zero, suc, ◌+◌, ◌-◌, ◌^◌, ◌≤◌, ◌<◌, ◌≡◌, refl, ap, ◌∙◌, ◌==◌, false, min, List, [], ◌∷◌, ◌++◌,
  append_assoc, append-nil, true, Option, none, some, ltb, if◌then◌else◌, length, take, drop,
  length-append, length-drop, take-append_length, drop-append_length, drop_all, take-append-drop,
  arith,
}
use ucxpp.Serdes.Bytes.{Endian, object_bytes, object_value, htobe, betoh}
use ucxpp.Serdes.RoundTrip.{
  wire, length-wire, AreBytes-wire, object_bytes-htobe, betoh-object_value, value-wire,
}

-- `send_mr`: what it puts on the stream, for the bytes of the packed key.
unfoldable pub send_mr : Endian → (address : ℕ) → (packed_rkey : List ℕ) → List ℕ
send_mr e address packed_rkey =
    object_bytes e 8 (htobe e 8 address)
    ++ (object_bytes e 8 (htobe e 8 (length packed_rkey)) ++ packed_rkey)

-- A single `stream_recv` into a number of eight bytes, which held `garbage`: the number converted, and
-- the bytes still to come; nothing while it waits.
unfoldable pub receive_number :
    Endian → (garbage : List ℕ) → (q : ℕ) → (input : List ℕ) → Option (ℕ × List ℕ)
receive_number e garbage q input =
    let n = min (q + 1) (min 8 (length input)) in
    if length input == 0
    then none
    else some (betoh e 8 (object_value e (take n input ++ drop n garbage)), drop n input)

-- `while (rkey_recved < rkey_length)`: the bytes of the key and those behind them, or nothing while it
-- waits.
unfoldable pub receive_rkey :
    (rkey_length rkey_recved : ℕ) → (rkey_buffer input : List ℕ) → List ℕ → Option (List ℕ × List ℕ)
receive_rkey rkey_length rkey_recved rkey_buffer input [] =
    if ltb rkey_recved rkey_length then none else some (rkey_buffer, input)
receive_rkey rkey_length rkey_recved rkey_buffer input (q ∷ qs) =
    let n = min (q + 1) (min (rkey_length - rkey_recved) (length input)) in
    let rest =
      receive_rkey rkey_length (rkey_recved + n) (rkey_buffer ++ take n input) (drop n input) qs in
    if ltb rkey_recved rkey_length then rest else some (rkey_buffer, input)

-- `receive_mr`: the address and the key, and the bytes behind them.
unfoldable pub receive_mr :
    Endian → (garbage input : List ℕ) → (q q' : ℕ) → List ℕ → Option (ℕ × (List ℕ × List ℕ))
unfolding receive_number receive_rkey
receive_mr e garbage input q q' qs = elim (receive_number e garbage q input) [
  | none ↦ none
  | some (remote_addr, behind) ↦ elim (receive_number e garbage q' behind) [
    | none ↦ none
    | some (rkey_length, behind') ↦
        map_option (λ p. (remote_addr, p)) (receive_rkey rkey_length 0 [] behind' qs)
  ]
]

take_first : (w : ℕ) (xs ys : List ℕ) → length xs ≡ w → take w (xs ++ ys) ≡ xs
take_first w xs ys e = rw (← e) (take-append_length xs ys)

drop_first : (w : ℕ) (xs ys : List ℕ) → length xs ≡ w → drop w (xs ++ ys) ≡ ys
drop_first w xs ys e = rw (← e) (drop-append_length xs ys)

take_within : (n : ℕ) (xs ys : List ℕ) → n ≤ length xs → take n (xs ++ ys) ≡ take n xs
take_within zero xs ys h = refl
take_within (suc n) [] ys h = absurd (omega arith)
take_within (suc n) (x ∷ xs) ys h = ap (◌∷◌ x) (take_within n xs ys (omega arith))

drop_within : (n : ℕ) (xs ys : List ℕ) → n ≤ length xs → drop n (xs ++ ys) ≡ drop n xs ++ ys
drop_within zero xs ys h = refl
drop_within (suc n) [] ys h = absurd (omega arith)
drop_within (suc n) (x ∷ xs) ys h = drop_within n xs ys (omega arith)

receive_number-wire :
    (e : Endian) (garbage : List ℕ) (q x : ℕ) (more : List ℕ)
    → 7 ≤ q
    → x < 256 ^ 8
    → length garbage ≡ 8
    → receive_number e garbage q (wire 8 x ++ more) ≡ some (x, more)
unfolding receive_number
receive_number-wire e garbage q x more whole fits l =
    let n : min (q + 1) (min 8 (length (wire 8 x ++ more))) ≡ 8 =
      omega (arith, length-append (wire 8 x) more, length-wire 8 x) in
    let arrived : (length (wire 8 x ++ more) == 0) ≡ false =
      ground (arith, length-append (wire 8 x) more, length-wire 8 x) in
    rw
      (
        arrived,
        n,
        take_first 8 (wire 8 x) more (length-wire 8 x),
        drop_first 8 (wire 8 x) more (length-wire 8 x),
        drop_all 8 garbage (omega (arith, l)),
        append-nil (wire 8 x),
      )
      (ap (λ (y : ℕ). some (y, more))
        (betoh-object_value e 8 (wire 8 x) (length-wire 8 x) (AreBytes-wire 8 x)
          ∙ value-wire 8 x fits))

receive_rkey-done :
    (total : ℕ) (buffer more : List ℕ) (qs : List ℕ)
    → receive_rkey total total buffer more qs ≡ some (buffer, more)
unfolding receive_rkey
receive_rkey-done total buffer more [] = ground arith
receive_rkey-done total buffer more (q ∷ qs) = ground arith

receive_rkey-piece :
    (total recved n q : ℕ) (buffer input : List ℕ) (qs : List ℕ)
    → recved < total
    → n ≡ min (q + 1) (min (total - recved) (length input))
    → receive_rkey total recved buffer input (q ∷ qs)
      ≡ receive_rkey total (recved + n) (buffer ++ take n input) (drop n input) qs
unfolding receive_rkey
receive_rkey-piece total recved n q buffer input qs h e =
    let t : ltb recved total ≡ true = ground arith in rw (e, t) refl

receive_rkey-whole :
    (total recved : ℕ) (buffer rkey more : List ℕ) (qs : List ℕ)
    → total ≡ recved + length rkey
    → length rkey ≤ length qs
    → receive_rkey total recved buffer (rkey ++ more) qs ≡ some (buffer ++ rkey, more)
receive_rkey-whole total recved buffer [] more qs e enough =
    let same : total ≡ recved = omega (arith, e) in
    rw (same, append-nil buffer) (receive_rkey-done recved buffer more qs)
receive_rkey-whole total recved buffer (k ∷ ks) more [] e enough = absurd (omega arith)
receive_rkey-whole total recved buffer (k ∷ ks) more (q ∷ qs) e enough =
    let rkey = k ∷ ks in
    let n = min (q + 1) (length rkey) in
    let size : n ≡ min (q + 1) (min (total - recved) (length (rkey ++ more))) =
      omega (arith, e, length-append rkey more) in
    let within : n ≤ length rkey = omega arith in
    let joined : (buffer ++ take n rkey) ++ drop n rkey ≡ buffer ++ rkey =
      append_assoc buffer (take n rkey) (drop n rkey)
      ∙ ap (◌++◌ buffer) (take-append-drop n rkey) in
    receive_rkey-piece total recved n q buffer (rkey ++ more) qs (omega (arith, e)) size
    ∙ ap (λ (t : List ℕ). receive_rkey total (recved + n) (buffer ++ t) (drop n (rkey ++ more)) qs)
        (take_within n rkey more within)
    ∙ ap (λ (t : List ℕ). receive_rkey total (recved + n) (buffer ++ take n rkey) t qs)
        (drop_within n rkey more within)
    ∙ receive_rkey-whole total (recved + n) (buffer ++ take n rkey) (drop n rkey) more qs
        (omega (arith, e, length-drop n rkey)) (omega (arith, length-drop n rkey))
    ∙ ap (λ (t : List ℕ). some (t, more)) joined

-- What `send_mr` puts on the stream `receive_mr` reads back, on hosts of either byte order, for any
-- address and key whose length fit in 64 bits, and leaves the bytes behind it alone, if the two
-- calls that receive a number give all of its bytes at once; the key may come in pieces of any size,
-- with as many calls as it has bytes.
pub receive_mr-send_mr :
    (e f : Endian) (address : ℕ) (packed_rkey more garbage : List ℕ) (q q' : ℕ) (qs : List ℕ)
    → address < 256 ^ 8
    → length packed_rkey < 256 ^ 8
    → length garbage ≡ 8
    → 7 ≤ q
    → 7 ≤ q'
    → length packed_rkey ≤ length qs
    → receive_mr f garbage (send_mr e address packed_rkey ++ more) q q' qs
      ≡ some (address, (packed_rkey, more))
unfolding receive_mr send_mr
receive_mr-send_mr e f address packed_rkey more garbage q q' qs ha hl l hq hq' enough =
    ap first (
      ap (receive_number f garbage q) on_wire
      ∙ receive_number-wire f garbage q address behind hq ha l)
    ∙ ap (second address)
        (receive_number-wire f garbage q' (length packed_rkey) (packed_rkey ++ more) hq' hl l)
    ∙ ap (map_option (λ p. (address, p)))
        (receive_rkey-whole (length packed_rkey) 0 [] packed_rkey more qs (omega arith) enough)
  where
    second : ℕ → Option (ℕ × List ℕ) → Option (ℕ × (List ℕ × List ℕ))
    second remote_addr none = none
    second remote_addr (some p) = map_option (λ r. (remote_addr, r)) (receive_rkey p.0 0 [] p.1 qs)

    first : Option (ℕ × List ℕ) → Option (ℕ × (List ℕ × List ℕ))
    first none = none
    first (some p) = second p.0 (receive_number f garbage q' p.1)

    behind : List ℕ
    behind = wire 8 (length packed_rkey) ++ (packed_rkey ++ more)

    on_wire : send_mr e address packed_rkey ++ more ≡ wire 8 address ++ behind
    on_wire =
        rw (object_bytes-htobe e 8 address, object_bytes-htobe e 8 (length packed_rkey))
          (append_assoc (wire 8 address) (wire 8 (length packed_rkey) ++ packed_rkey) more
            ∙ ap (◌++◌ (wire 8 address))
                (append_assoc (wire 8 (length packed_rkey)) packed_rkey more))
