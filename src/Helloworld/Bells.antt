-- ===== src/Helloworld/Bells.antt =====
-- The bells of examples/helloworld.cc keep the server's `value` from being read and changed at once.
use ucxpp.Base.{
  ℕ, suc, ◌+◌, ◌%◌, ◌^◌, ◌≡◌, refl, sym, ◌∙◌, ◌⊎◌, inl, inr, List, [], ◌∷◌, ◌++◌, append-nil,
  append_assoc, Bool, true, false, none, some, ==_iff, length,
}
use ucxpp.Helloworld.{
  Atomics, Locals, Turn, prepare, operation, client_turns, operates, rings, hears, listens, prints,
  answers, System, client_move, server_move, move, moves, rendezvous,
}

module _ (A : Atomics) where
  -- One turn by itself: what it makes of the value and of the client's variables.
  abbrev pub turn : Turn → ℕ → Locals → ℕ × Locals
  turn t v l =
      let l' = prepare t l in
      let (v', r) = A.apply (operation t) l'.local_value l'.reply_value v in
      (v', record l' { reply_value = r })

  -- The values after each turn, if the client alone were there.
  abbrev pub values : List Turn → ℕ → Locals → List ℕ
  values [] v l = []
  values (t ∷ ts) v l = (turn t v l).0 ∷ values ts (turn t v l).0 (turn t v l).1

  -- The states that are reached, turn by turn: `all` is what the server prints in the end.
  pub data Turns (all : List ℕ) : System → Type 0 where
    operating :
        (ts : List Turn) (v : ℕ) (l : Locals) (printed : List ℕ)
        → printed ++ values ts v l ≡ all
        → Turns all (record {
          client_at = operates;
          turns = ts;
          locals = l;
          server_at = listens;
          rounds = length ts;
          to_server = 0;
          to_client = 0;
          value = v;
          printed = printed;
        })
    ringing :
        (t : Turn) (ts : List Turn) (v : ℕ) (l : Locals) (printed : List ℕ)
        → printed ++ v ∷ values ts v l ≡ all
        → Turns all (record {
          client_at = rings;
          turns = t ∷ ts;
          locals = l;
          server_at = listens;
          rounds = suc (length ts);
          to_server = 0;
          to_client = 0;
          value = v;
          printed = printed;
        })
    rung :
        (t : Turn) (ts : List Turn) (v : ℕ) (l : Locals) (printed : List ℕ)
        → printed ++ v ∷ values ts v l ≡ all
        → Turns all (record {
          client_at = hears;
          turns = t ∷ ts;
          locals = l;
          server_at = listens;
          rounds = suc (length ts);
          to_server = 1;
          to_client = 0;
          value = v;
          printed = printed;
        })
    printing :
        (t : Turn) (ts : List Turn) (v : ℕ) (l : Locals) (printed : List ℕ)
        → printed ++ v ∷ values ts v l ≡ all
        → Turns all (record {
          client_at = hears;
          turns = t ∷ ts;
          locals = l;
          server_at = prints;
          rounds = suc (length ts);
          to_server = 0;
          to_client = 0;
          value = v;
          printed = printed;
        })
    answering :
        (t : Turn) (ts : List Turn) (v : ℕ) (l : Locals) (printed : List ℕ)
        → printed ++ values ts v l ≡ all
        → Turns all (record {
          client_at = hears;
          turns = t ∷ ts;
          locals = l;
          server_at = answers;
          rounds = suc (length ts);
          to_server = 0;
          to_client = 0;
          value = v;
          printed = printed;
        })
    answered :
        (t : Turn) (ts : List Turn) (v : ℕ) (l : Locals) (printed : List ℕ)
        → printed ++ values ts v l ≡ all
        → Turns all (record {
          client_at = hears;
          turns = t ∷ ts;
          locals = l;
          server_at = listens;
          rounds = length ts;
          to_server = 0;
          to_client = 1;
          value = v;
          printed = printed;
        })

  pub move-Turns : (all : List ℕ) (who : Bool) (s : System) → Turns all s → Turns all (move A who s)
  unfolding move client_move server_move
  move-Turns all true _ (operating [] v l printed e) = operating [] v l printed e
  move-Turns all true _ (operating (t ∷ ts) v l printed e) = ringing t ts _ _ printed e
  move-Turns all true _ (ringing t ts v l printed e) = rung t ts v l printed e
  move-Turns all true _ (rung t ts v l printed e) = rung t ts v l printed e
  move-Turns all true _ (printing t ts v l printed e) = printing t ts v l printed e
  move-Turns all true _ (answering t ts v l printed e) = answering t ts v l printed e
  move-Turns all true _ (answered t ts v l printed e) = operating ts v l printed e
  move-Turns all false _ (operating [] v l printed e) = operating [] v l printed e
  move-Turns all false _ (operating (t ∷ ts) v l printed e) = operating (t ∷ ts) v l printed e
  move-Turns all false _ (ringing t ts v l printed e) = ringing t ts v l printed e
  move-Turns all false _ (rung t ts v l printed e) = printing t ts v l printed e
  move-Turns all false _ (printing t ts v l printed e) =
      answering t ts v l (printed ++ v ∷ []) (append_assoc printed (v ∷ []) (values ts v l) ∙ e)
  move-Turns all false _ (answering t ts v l printed e) = answered t ts v l printed e
  move-Turns all false _ (answered t [] v l printed e) = answered t [] v l printed e
  move-Turns all false _ (answered t (u ∷ ts) v l printed e) = answered t (u ∷ ts) v l printed e

  pub moves-Turns :
      (all : List ℕ) (schedule : List Bool) (s : System)
      → Turns all s
      → Turns all (moves A schedule s)
  unfolding moves
  moves-Turns all [] s h = h
  moves-Turns all (who ∷ schedule) s h =
      moves-Turns all schedule (move A who s) (move-Turns all who s h)

  -- What is known of a state: just one of the two can move, or both are done and the server has printed
  -- all of the values; and the number is not read while it is changed.
  abbrev pub IsOrderly : List ℕ → System → Type 0
  IsOrderly all s =
      (((s' : System) × (client_move A s ≡ some s') × (server_move A s ≡ none))
        ⊎ (((s' : System) × (server_move A s ≡ some s') × (client_move A s ≡ none))
            ⊎ ((client_move A s ≡ none)
                × (server_move A s ≡ none)
                × (s.turns ≡ [])
                × (s.printed ≡ all))))
      × ((s.client_at ≡ hears) ⊎ (s.server_at ≡ listens))

  pub Turns-IsOrderly : (all : List ℕ) (s : System) → Turns all s → IsOrderly all s
  unfolding client_move server_move
  Turns-IsOrderly all _ (operating [] v l printed e) =
      (inr (inr (refl, refl, refl, sym (append-nil printed) ∙ e)), inr refl)
  Turns-IsOrderly all _ (operating (t ∷ ts) v l printed e) = (inl (_, refl, refl), inr refl)
  Turns-IsOrderly all _ (ringing t ts v l printed e) = (inl (_, refl, refl), inr refl)
  Turns-IsOrderly all _ (rung t ts v l printed e) = (inr (inl (_, refl, refl)), inl refl)
  Turns-IsOrderly all _ (printing t ts v l printed e) = (inr (inl (_, refl, refl)), inl refl)
  Turns-IsOrderly all _ (answering t ts v l printed e) = (inr (inl (_, refl, refl)), inl refl)
  Turns-IsOrderly all _ (answered t [] v l printed e) = (inl (_, refl, refl), inr refl)
  Turns-IsOrderly all _ (answered t (u ∷ ts) v l printed e) = (inl (_, refl, refl), inr refl)

  -- What the six turns make of a number.
  abbrev pub six_values : ℕ → List ℕ
  six_values value = (value + 1) % 2 ^ 64 ∷ 456 ∷ 123 ∷ 11 ∷ 15 ∷ 0 ∷ []

  pub client_turns-values :
      (value : ℕ)
      → values client_turns value (record { local_value = 1; reply_value = 0 }) ≡ six_values value
  unfolding prepare operation
  client_turns-values value =
      rw
        (
          A.apply-add,
          A.apply-cswap,
          (==_iff ((value + 1) % 2 ^ 64) ((value + 1) % 2 ^ 64)).1 refl,
          A.apply-swap,
          A.apply-and,
          A.apply-or,
          A.apply-xor,
        )
        refl

  -- Whatever the order in which the client and the server are run, exactly one of them can move and
  -- the other has to wait, until both are done; the server prints its number only while the client
  -- waits for a bell; and once both are done it has printed the number increased, 456 because the
  -- comparison found it unchanged, and the results of the other four operations.
  pub bells-IsOrderly :
      (schedule : List Bool) (value : ℕ)
      → IsOrderly (six_values value) (moves A schedule (rendezvous value))
  bells-IsOrderly schedule value =
      Turns-IsOrderly (six_values value) (moves A schedule (rendezvous value)) (
        moves-Turns (six_values value) schedule (rendezvous value) (
          operating client_turns value (record { local_value = 1; reply_value = 0 }) []
            (client_turns-values value)))
