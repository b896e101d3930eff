-- ===== src/Helloworld.antt =====
-- examples/helloworld.cc: the atomic operations of `client` on the number that `handle_endpoint` holds,
-- and the bells by which the two take turns. UCX works as documented and no operation fails; a send
-- of a bell ends without its receiver.
pub mod Bells
pub mod Finish
pub mod Regions
pub mod Greetings
pub mod Main
use ucxpp.Base.{
  ℕ, zero, suc, ◌+◌, ◌-◌, ◌%◌, ◌^◌, ◌≡◌, List, [], ◌∷◌, ◌++◌, Bool, true, false, Option, none, some,
  ◌==◌, if◌then◌else◌,
}
use ucxpp.Ucx.{AtomicOp, op_add, op_and, op_or, op_xor, op_swap, op_cswap}
use Prim.Native.Nat.{bit_and, bit_or, bit_xor}

-- `ucp_atomic_op_nbx` on eight bytes: from the operand, the reply buffer and the remote memory, the
-- remote memory and the reply buffer.
pub record Atomics : Type 0 where
  pub apply : AtomicOp → (operand reply memory : ℕ) → ℕ × ℕ
  pub apply-add : (x r m : ℕ) → apply op_add x r m ≡ ((m + x) % 2 ^ 64, m)
  pub apply-and : (x r m : ℕ) → apply op_and x r m ≡ (bit_and m x, m)
  pub apply-or : (x r m : ℕ) → apply op_or x r m ≡ (bit_or m x, m)
  pub apply-xor : (x r m : ℕ) → apply op_xor x r m ≡ (bit_xor m x, m)
  pub apply-swap : (x r m : ℕ) → apply op_swap x r m ≡ (x, m)
  pub apply-cswap : (x r m : ℕ) → apply op_cswap x r m ≡ (if m == x then r else m, m)

-- `local_value` and `reply_value` of `client`
pub record Locals : Type 0 where
  pub local_value : ℕ
  pub reply_value : ℕ

-- One part of `client`: how it sets its variables, and the operation.
pub data Turn : Type 0 where
  fetch_and_add compare_and_swap swap fetch_and_and fetch_and_or fetch_and_xor : Turn

unfoldable pub prepare : Turn → Locals → Locals
prepare fetch_and_add l = l
prepare compare_and_swap l = record {
  local_value = (l.reply_value + l.local_value) % 2 ^ 64;
  reply_value = 456;
}
prepare swap l = record l { local_value = 123 }
prepare fetch_and_and l = record l { local_value = 15 }
prepare fetch_and_or l = record l { local_value = 15 }
prepare fetch_and_xor l = record l { local_value = 15 }

unfoldable pub operation : Turn → AtomicOp
operation fetch_and_add = op_add
operation compare_and_swap = op_cswap
operation swap = op_swap
operation fetch_and_and = op_and
operation fetch_and_or = op_or
operation fetch_and_xor = op_xor

abbrev pub client_turns : List Turn
client_turns =
    fetch_and_add ∷ compare_and_swap ∷ swap ∷ fetch_and_and ∷ fetch_and_or ∷ fetch_and_xor ∷ []

-- Where each of the two stands in a turn.
pub data ClientAt : Type 0 where
  operates rings hears : ClientAt

pub data ServerAt : Type 0 where
  listens prints answers : ServerAt

-- The client with the turns to come, the server with the number of turns to come, the bells under way
-- in each direction, and what the server printed of its `value`.
pub record System : Type 0 where
  pub client_at : ClientAt
  pub turns : List Turn
  pub locals : Locals
  pub server_at : ServerAt
  pub rounds : ℕ
  pub to_server : ℕ
  pub to_client : ℕ
  pub value : ℕ
  pub printed : List ℕ

module _ (A : Atomics) where
  -- `client`, up to its next `co_await`; nothing if it cannot go on.
  unfoldable pub client_move : System → Option System
  unfolding prepare operation
  client_move s = elim s.turns [
    | [] ↦ none
    | t ∷ ts ↦ elim s.client_at [
      | operates ↦
          let l = prepare t s.locals in
          let (v, r) = A.apply (operation t) l.local_value l.reply_value s.value in
          some (record s { value = v; locals = record l { reply_value = r }; client_at = rings })
      | rings ↦ some (record s { to_server = s.to_server + 1; client_at = hears })
      | hears ↦
          if s.to_client == 0
          then none
          else some (record s { to_client = s.to_client - 1; turns = ts; client_at = operates })
    ]
  ]

  -- `handle_endpoint`
  unfoldable pub server_move : System → Option System
  server_move s = elim s.rounds [
    | zero ↦ none
    | suc rest ↦ elim s.server_at [
      | listens ↦
          if s.to_server == 0
          then none
          else some (record s { to_server = s.to_server - 1; server_at = prints })
      | prints ↦ some (record s { printed = s.printed ++ s.value ∷ []; server_at = answers })
      | answers ↦
          some (record s { to_client = s.to_client + 1; rounds = rest; server_at = listens })
    ]
  ]

  -- A move of the client or of the server, if it can move.
  unfoldable pub move : Bool → System → System
  unfolding client_move server_move
  move true s = elim (client_move s) [ none ↦ s | some s' ↦ s' ]
  move false s = elim (server_move s) [ none ↦ s | some s' ↦ s' ]

  unfoldable pub moves : List Bool → System → System
  unfolding move
  moves [] s = s
  moves (who ∷ schedule) s = moves schedule (move who s)

-- The two behind the second `receive_mr` and `send_mr`: `handle_endpoint` waits six times.
abbrev pub rendezvous : (value : ℕ) → System
rendezvous value = record {
  client_at = operates;
  turns = client_turns;
  locals = record { local_value = 1; reply_value = 0 };
  server_at = listens;
  rounds = 6;
  to_server = 0;
  to_client = 0;
  value = value;
  printed = [];
}
