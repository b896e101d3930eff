-- ===== src/Helloworld/Main.antt =====
-- examples/helloworld.cc: `server`, and `main`. `stoi` gives nothing where it throws.
use ucxpp.Base.{
  ℕ, ◌-◌, ◌%◌, ◌^◌, ◌≤◌, ◌≡◌, refl, List, [], ◌∷◌, ◌++◌, String, Option, none, some, length,
}
use ucxpp.Base.Int.{ℤ, pos, negsuc}
use ucxpp.Base.Loops.{replicate, while_true, while_true-ends}
use ucxpp.Errors.{RuntimeError, Result, ok, err}
use ucxpp.Context.{Call, enable, stream, tag, rma, amo64, wakeup}
use ucxpp.Perftest.Main.{shared_by}
use ucxpp.Perftest.Main.Waiting.{AreShared, shared_by-busy}

-- The calls on the builder of the context.
unfoldable pub hello_calls : List Call
hello_calls = enable stream ∷ enable tag ∷ enable rma ∷ enable amo64 ∷ enable wakeup ∷ []

-- `server`: the endpoints that were handed to a `handle_endpoint` each, and the exception of `accept`
-- that ended it, if there was one.
unfoldable pub server : List (Result ℕ) → List ℕ × Option RuntimeError
server [] = ([], none)
server (err e ∷ accepts) = ([], some e)
server (ok ep ∷ accepts) = let (eps, e) = server accepts in (ep ∷ eps, e)

-- What `main` does.
pub data Action : Type 0 where
  makes_loop makes_worker registers_loop prints_usage polls closes_loop : Action
  serves : (port : ℕ) → Action
  connects : (host : String) → (port : ℕ) → Action

-- A port, as `uint16_t`.
abbrev pub to_port : ℤ → ℕ
to_port (pos n) = n % 2 ^ 16
to_port (negsuc k) = 2 ^ 16 - 1 - k % 2 ^ 16

module _ (stoi : String → Option ℤ) where
  abbrev pub with_port : String → (ℕ → Action) → Option (List Action)
  with_port arg f = elim (stoi arg) [ none ↦ none | some n ↦ some (f (to_port n) ∷ []) ]

  -- By the arguments behind the name of the program; nothing if an exception leaves `main`.
  unfoldable pub hello_begin : List String → Option (List Action)
  hello_begin (port ∷ []) = with_port port serves
  hello_begin (host ∷ port ∷ []) = with_port port (connects host)
  hello_begin _ = some (prints_usage ∷ [])

  -- `main`, where `use_counts` is how many pointers to the worker there are at each test of its loop.
  unfoldable pub hello_main : List String → (use_counts : List ℕ) → Option (List Action)
  unfolding hello_begin while_true
  hello_main args use_counts = elim (hello_begin args) [
    | none ↦ none
    | some begun ↦
        elim (while_true (shared_by use_counts) polls (some (closes_loop ∷ polls ∷ []))) [
          | none ↦ none
          | some l ↦ some (makes_loop ∷ makes_worker ∷ registers_loop ∷ (begun ++ l))
        ]
  ]

  -- Where no exception leaves it, `main` polls the loop once for each test that finds another pointer to
  -- the worker, whatever its arguments are, so also after it has only printed the usage; then it
  -- closes the loop and polls it once more.
  pub hello_main-ends :
      (args : List String) (begun : List Action) (busy more : List ℕ) (last : ℕ)
      → hello_begin args ≡ some begun
      → AreShared busy
      → last ≤ 1
      → hello_main args (busy ++ last ∷ more)
        ≡ some (
            makes_loop
            ∷ makes_worker
            ∷ registers_loop
            ∷ (begun ++ (replicate (length busy) polls ++ closes_loop ∷ polls ∷ [])))
  unfolding hello_main
  hello_main-ends args begun busy more last h s e =
      rw
        (
          h,
          hello_main,
          shared_by-busy busy more last s e,
          while_true-ends (length busy) (shared_by more) polls (closes_loop ∷ polls ∷ []),
        )
        refl
