-- ===== src/Perftest/Options.antt =====
-- examples/perftest.cc: the options that `main` reads, and the context that it builds. `std::stoul` and
-- `std::stoi` give nothing where they throw.
use Prim.Native.String.{char_at}
use Prim.Native.Char.{code}
use text.Mathlib.Text as Text
use ucxpp.Base.{
  ℕ, suc, ◌-◌, ◌%◌, ◌^◌, List, [], ◌∷◌, ◌++◌, String, Bool, true, false, Option, none, some, ◌⊎◌,
  inl, inr, ◌==◌, if◌then◌else◌,
}
use ucxpp.Base.Int.{ℤ, pos, negsuc}
use ucxpp.Context.{tag, stream, wakeup, Call, enable}

pub data TestCategory : Type 0 where
  tag_test stream_test rma_test : TestCategory

-- `perf_context`; of `test` the second half stays as it is.
pub record PerfContext : Type 0 where
  pub test : TestCategory
  pub concurrency : ℕ
  pub iterations : ℕ
  pub message_size : ℕ
  pub warmup_iterations : ℕ
  pub epoll : Bool
  pub server_address : String
  pub server_port : ℕ
  pub core : Option ℕ

unfoldable pub perf_context : PerfContext
perf_context = record {
  test = tag_test;
  concurrency = 1;
  iterations = 10000000;
  message_size = 8;
  warmup_iterations = 10000;
  epoll = false;
  server_address = "";
  server_port = 8888;
  core = none;
}

-- 1 is returned, or an exception leaves `main`.
pub data Refusal : Type 0 where
  exits throws : Refusal

-- How the loop ends: the usage is printed, an argument is refused, a string behind the last one is
-- read, or the test begins.
pub data Outcome : Type 0 where
  usage undefined : Outcome
  refused : Refusal → Outcome
  begins : PerfContext → Outcome

-- The options that take the next string.
pub data ValueOption : Type 0 where
  test_option core_option concurrency_option size_option iterations_option warmup_option
        port_option :
      ValueOption

pub data Kind : Type 0 where
  help epoll_flag unknown address : Kind
  value : ValueOption → Kind

-- The tests of one string. An empty one is not below the position 0, where it holds a null character.
unfoldable pub kind : String → Kind
kind arg =
    if Text.◌==◌ arg "-h"
    then help
    else if Text.◌==◌ arg "-t"
    then value test_option
    else if Text.◌==◌ arg "-c"
    then value core_option
    else if Text.◌==◌ arg "-o"
    then value concurrency_option
    else if Text.◌==◌ arg "-s"
    then value size_option
    else if Text.◌==◌ arg "-n"
    then value iterations_option
    else if Text.◌==◌ arg "-w"
    then value warmup_option
    else if Text.◌==◌ arg "-e"
    then epoll_flag
    else if Text.◌==◌ arg "-p"
    then value port_option
    else if code (char_at arg 0) == code "-"
    then unknown
    else address

-- The conversion of an `int` to `size_t`.
abbrev pub to_size : ℤ → ℕ
to_size (pos n) = n % 2 ^ 64
to_size (negsuc k) = 2 ^ 64 - suc k

module _ (stoul : String → Option ℕ) (stoi : String → Option ℤ) where
  abbrev pub number : String → (ℕ → PerfContext) → Refusal ⊎ PerfContext
  number arg f = elim (stoul arg) [ none ↦ inl throws | some n ↦ inr (f n) ]

  -- What an option does with its string.
  unfoldable pub set_option : ValueOption → String → PerfContext → Refusal ⊎ PerfContext
  set_option test_option arg perf =
      if Text.◌==◌ arg "tag"
      then inr (record perf { test = tag_test })
      else if Text.◌==◌ arg "stream"
      then inr (record perf { test = stream_test })
      else inl exits
  set_option core_option arg perf = elim (stoi arg) [
    | none ↦ inl throws
    | some n ↦ inr (record perf { core = some (to_size n) })
  ]
  set_option concurrency_option arg perf = number arg λ n. record perf { concurrency = n }
  set_option size_option arg perf = number arg λ n. record perf { message_size = n }
  set_option iterations_option arg perf = number arg λ n. record perf { iterations = n }
  set_option warmup_option arg perf = number arg λ n. record perf { warmup_iterations = n }
  set_option port_option arg perf = number arg λ n. record perf { server_port = n % 2 ^ 16 }

  -- The loop over the arguments, where `pending` is an option whose string is read next.
  unfoldable pub parse_loop : (pending : Option ValueOption) → List String → PerfContext → Outcome
  unfolding kind set_option
  parse_loop none [] perf = begins perf
  parse_loop (some o) [] perf = undefined
  parse_loop (some o) (arg ∷ args) perf = elim (set_option o arg perf) [
    | inl r ↦ refused r
    | inr perf' ↦ parse_loop none args perf'
  ]
  parse_loop none (arg ∷ args) perf = elim (kind arg) [
    | help ↦ usage
    | epoll_flag ↦ parse_loop none args (record perf { epoll = true })
    | unknown ↦ refused exits
    | address ↦ parse_loop none args (record perf { server_address = arg })
    | value o ↦ parse_loop (some o) args perf
  ]

  unfoldable pub parse : List String → Outcome
  unfolding parse_loop perf_context
  parse args = parse_loop none args perf_context

-- The calls on the builder of the context.
unfoldable pub context_calls : PerfContext → List Call
context_calls perf =
    elim perf.test [ stream_test ↦ enable stream ∷ [] | _ ↦ enable tag ∷ [] ]
    ++ (if perf.epoll then enable wakeup ∷ [] else [])
