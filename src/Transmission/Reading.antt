-- ===== src/Transmission/Reading.antt =====
-- The read loops of examples/ep_transmission.cc.
use ucxpp.Base.{
  ℕ, ◌+◌, ◌-◌, ◌≤◌, ◌<◌, ◌≡◌, refl, ap, ◌∙◌, sym, min, List, [], ◌∷◌, ◌++◌, append_assoc,
  append-nil, String, true, false, ltb, ◌==◌, if◌then◌else◌, length, take, drop, length-drop,
  length-append, take_split, drop_split, take-append_length, drop-append_length, arith, Bool-cases,
  inl, inr,
}
use ucxpp.Errors.{plain}
use ucxpp.Transmission.{Reply, moved, failed, Read, got, read_loop}

-- No exception from the connection.
abbrev pub AllMoved : List Reply → Type 0
AllMoved [] = Unit
AllMoved (moved q ∷ replies) = AllMoved replies
AllMoved (failed e ∷ replies) = ⊥

-- A loop that reads `want` more bytes of `input` behind `buffer`: it takes exactly those and keeps the
-- rest, and a reply serves for one byte at least; or it reports the end of the stream.
abbrev pub Reads :
    (eof : String) → (want : ℕ) → (buffer input : List ℕ) → List Reply → Read → Type 0
Reads eof want buffer input replies r =
    if ltb (length input) want
    then r ≡ Read.threw (plain eof)
    else ((left : List Reply) × (r ≡ got (buffer ++ take want input) (drop want input) left)
        × AllMoved left
        × (length replies ≤ length left + want))

Reads-done :
    (eof : String) (want : ℕ) (buffer input : List ℕ) (replies : List Reply)
    → want ≡ 0
    → AllMoved replies
    → Reads eof want buffer input replies (got buffer input replies)
Reads-done eof want buffer input replies e m = rw e (
    rw none_missing
      (replies, ap (λ (t : List ℕ). got t input replies) (sym (append-nil buffer)), m, omega arith))
  where
    none_missing : ltb (length input) 0 ≡ false
    none_missing = ground arith

Reads-eof :
    (eof : String) (want : ℕ) (buffer input : List ℕ) (replies : List Reply)
    → length input < want
    → Reads eof want buffer input replies (Read.threw (plain eof))
Reads-eof eof want buffer input replies h =
    let e : ltb (length input) want ≡ true = ground arith in rw e refl

-- A transfer of `n` bytes, then the rest.
Reads-step :
    (eof : String) (want n k : ℕ) (q : Reply) (buffer input : List ℕ) (replies : List Reply)
    (r : Read)
    → want ≡ n + k
    → 0 < n
    → n ≤ length input
    → Reads eof k (buffer ++ take n input) (drop n input) replies r
    → Reads eof want buffer input (q ∷ replies) r
Reads-step eof want n k q buffer input replies r split pos fits h =
    rw split (elim (Bool-cases (ltb (length (drop n input)) k)) [
      | inl e ↦
          let f : ltb (length input) (n + k) ≡ true = ground (arith, length-drop n input) in
          rw f (rw e at h)
      | inr e ↦
          let f : ltb (length input) (n + k) ≡ false = ground (arith, length-drop n input) in
          rw f (shift (rw e at h))
    ])
  where
    shift :
        ((left : List Reply) × (r
            ≡ got ((buffer ++ take n input) ++ take k (drop n input)) (drop k (drop n input)) left)
          × AllMoved left
          × (length replies ≤ length left + k))
        → (left : List Reply) × (r ≡ got (buffer ++ take (n + k) input) (drop (n + k) input) left)
          × AllMoved left
          × (length (q ∷ replies) ≤ length left + (n + k))
    shift (left, e, m, l) =
        (left, e ∙ rw (append_assoc, take_split n k input, drop_split n k input), m, omega arith)

-- Where no call throws and there are more replies than bytes wanted, the loop ends. If the input has
-- the bytes it wants, it ends with exactly those behind what the buffer held, leaves the rest of the
-- input, and used at most one reply for a byte; otherwise it throws the exception for the end of
-- the stream. It does not matter how the bytes are split into transfers.
pub read_loop-Reads :
    (eof : String) (total read : ℕ) (buffer input : List ℕ) (replies : List Reply)
    → AllMoved replies
    → total - read < length replies
    → Reads eof (total - read) buffer input replies (read_loop eof total read buffer input replies)
unfolding read_loop
read_loop-Reads eof total read buffer input [] m h = absurd (omega arith)
read_loop-Reads eof total read buffer input (failed e ∷ replies) m h = absurd m
read_loop-Reads eof total read buffer input (moved q ∷ replies) m h =
    elim (Bool-cases (ltb read total)) [
      | inr stop ↦
          rw stop (Reads-done eof (total - read) buffer input (moved q ∷ replies) (ground arith) m)
      | inl more ↦ elim (Bool-cases (n == 0)) [
        | inl empty ↦
            rw (more, empty)
              (Reads-eof eof (total - read) buffer input (moved q ∷ replies) (ground arith))
        | inr some_moved ↦
            let e : total - read ≡ n + (total - (read + n)) = ground arith in
            rw (more, some_moved)
              (Reads-step eof (total - read) n (total - (read + n)) (moved q) buffer input replies _
                e (ground arith) (omega arith)
                (read_loop-Reads eof total (read + n) (buffer ++ take n input) (drop n input)
                  replies m (ground arith)))
      ]
    ]
  where
    n : ℕ
    n = min (q + 1) (min (total - read) (length input))

-- The two outcomes of a loop that starts with an empty buffer.
pub read_whole :
    (eof : String) (n : ℕ) (part rest : List ℕ) (replies : List Reply)
    → length part ≡ n
    → AllMoved replies
    → n < length replies
    → (left : List Reply) × (read_loop eof n 0 [] (part ++ rest) replies ≡ got part rest left)
      × AllMoved left
      × (length replies ≤ length left + n)
read_whole eof n part rest replies l m h =
    let there : ltb (length (part ++ rest)) (n - 0) ≡ false =
      ground (arith, length-append part rest) in
    let (left, e, m', k) =
      rw there at (read_loop-Reads eof n 0 [] (part ++ rest) replies m (omega arith)) in
    (
      left,
      e ∙ rw (all, take-append_length part rest, drop-append_length part rest),
      m',
      omega arith,
    )
  where
    all : n - 0 ≡ length part
    all = omega arith

pub read_short :
    (eof : String) (n : ℕ) (input : List ℕ) (replies : List Reply)
    → length input < n
    → AllMoved replies
    → n < length replies
    → read_loop eof n 0 [] input replies ≡ Read.threw (plain eof)
read_short eof n input replies short m h =
    let missing : ltb (length input) (n - 0) ≡ true = ground arith in
    rw missing at (read_loop-Reads eof n 0 [] input replies m (omega arith))
