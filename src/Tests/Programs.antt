-- ===== src/Tests/Programs.antt =====
-- examples/helloworld.cc and the options of examples/perftest.cc on concrete values.
use Prim.Native.Nat.{bit_and, bit_or, bit_xor}
use ucxpp.Base.{
  ℕ, zero, suc, ◌<◌, ap, ◌+◌, ◌%◌, ◌^◌, ◌≡◌, refl, List, [], ◌∷◌, ◌++◌, ◌==◌, String, Bool, true,
  false, none, some, if◌then◌else◌, arith,
}
use ucxpp.Base.Int.{pos}
use ucxpp.Ucx.{AtomicOp, op_add, op_and, op_or, op_xor, op_swap, op_cswap}
use ucxpp.Serdes.Bytes.{little, big}
use ucxpp.Helloworld.{Atomics, client_move, server_move, moves, rendezvous}
use ucxpp.Helloworld.Bells.{IsOrderly, bells-IsOrderly}
use ucxpp.Helloworld.Finish.{paired, bells-finish}
use ucxpp.Helloworld.Regions.{send_mr, receive_mr, receive_mr-send_mr}
use ucxpp.Perftest.Options.{PerfContext, stream_test, begins, kind, parse}
use ucxpp.Perftest.Printing.{Decimal, IsValid, command_line, parse-command_line}

abbrev memory : AtomicOp → (operand reply memory : ℕ) → ℕ × ℕ
memory op_add x r m = ((m + x) % 2 ^ 64, m)
memory op_and x r m = (bit_and m x, m)
memory op_or x r m = (bit_or m x, m)
memory op_xor x r m = (bit_xor m x, m)
memory op_swap x r m = (x, m)
memory op_cswap x r m = (if m == x then r else m, m)

abbrev atomics : Atomics
atomics = record {
  apply = memory;
  apply-add = λ x r m. refl;
  apply-and = λ x r m. refl;
  apply-or = λ x r m. refl;
  apply-xor = λ x r m. refl;
  apply-swap = λ x r m. refl;
  apply-cswap = λ x r m. refl;
}

abbrev schedule : List Bool
schedule = true ∷ true ∷ false ∷ false ∷ []

bells-IsOrderly_example :
    IsOrderly atomics (43 ∷ 456 ∷ 123 ∷ 11 ∷ 15 ∷ 0 ∷ []) (moves atomics schedule (rendezvous 42))
bells-IsOrderly_example = bells-IsOrderly atomics schedule 42

abbrev times : ℕ → List Bool → List Bool
times zero l = []
times (suc n) l = l ++ times n l

bells-finish_example :
    let s = moves atomics (paired (times 9 schedule)) (rendezvous 42) in
    (client_move atomics s ≡ none)
    × (server_move atomics s ≡ none)
    × (s.printed ≡ 43 ∷ 456 ∷ 123 ∷ 11 ∷ 15 ∷ 0 ∷ [])
bells-finish_example = bells-finish atomics (times 9 schedule) 42 (omega arith)

abbrev garbage : List ℕ
garbage = 0 ∷ 0 ∷ 0 ∷ 0 ∷ 0 ∷ 0 ∷ 0 ∷ 0 ∷ []

receive_mr-send_mr_example :
    receive_mr big garbage (send_mr little 4096 (7 ∷ 8 ∷ 9 ∷ []) ++ 1 ∷ []) 7 7 (0 ∷ 0 ∷ 5 ∷ [])
    ≡ some (4096, (7 ∷ 8 ∷ 9 ∷ [], 1 ∷ []))
receive_mr-send_mr_example =
    receive_mr-send_mr little big 4096 (7 ∷ 8 ∷ 9 ∷ []) (1 ∷ []) garbage 7 7 (0 ∷ 0 ∷ 5 ∷ [])
      (omega arith) (omega arith) refl (omega arith) (omega arith) (omega arith)

-- Numbers as strings of as many characters.
abbrev unary : ℕ → String
unary zero = ""
unary (suc n) = String.◌∷◌ "1" (unary n)

abbrev strokes : String → ℕ
strokes String.[] = 0
strokes (String.◌∷◌ c s) = suc (strokes s)

strokes-unary : (n : ℕ) → strokes (unary n) ≡ n
strokes-unary zero = refl
strokes-unary (suc n) = ap suc (strokes-unary n)

stoul-unary : (n : ℕ) → n < 2 ^ 64 → some (strokes (unary n)) ≡ some n
stoul-unary n h = ap some (strokes-unary n)

stoi-unary : (n : ℕ) → n < 2 ^ 31 → some (pos (strokes (unary n))) ≡ some (pos n)
stoi-unary n h = ap (λ (m : ℕ). some (pos m)) (strokes-unary n)

abbrev decimal : Decimal
decimal = record {
  to_string = unary;
  stoul = λ s. some (strokes s);
  stoi = λ s. some (pos (strokes s));
  stoul-to_string = stoul-unary;
  stoi-to_string = stoi-unary;
}

abbrev perf : PerfContext
perf = record {
  test = stream_test;
  concurrency = 2;
  iterations = 5;
  message_size = 4;
  warmup_iterations = 3;
  epoll = true;
  server_address = "::1";
  server_port = 9;
  core = some 1;
}

perf-IsValid : IsValid perf
perf-IsValid = record {
  not_rma = λ e. ground arith;
  concurrency_fits = omega arith;
  size_fits = omega arith;
  iterations_fits = omega arith;
  warmup_fits = omega arith;
  port_fits = omega arith;
  core_fits = omega arith;
}

parse-command_line_example :
    parse decimal.stoul decimal.stoi (command_line decimal perf) ≡ begins perf
unfolding kind
parse-command_line_example = parse-command_line decimal perf perf-IsValid refl
