-- ===== src/Perftest/LastOption.antt =====
-- What `main` of examples/perftest.cc does if the last argument is an option that takes a string.
use ucxpp.Base.{
  ℕ, ◌≡◌, refl, true, List, [], ◌∷◌, ◌++◌, String, Option, none, some, ◌⊎◌, inl, inr, arith,
}
use ucxpp.Base.Int.{ℤ}
use ucxpp.Perftest.Options.{
  PerfContext, perf_context, Refusal, Outcome, refused, usage, exits, undefined, begins,
  ValueOption, Kind, help, epoll_flag, unknown, address, value, kind, set_option, parse_loop, parse,
}

module _ (stoul : String → Option ℕ) (stoi : String → Option ℤ) where
  parse_loop-undefined :
      (pending : Option ValueOption) (args : List String) (word : String) (o : ValueOption)
      (perf perf' : PerfContext)
      → kind word ≡ value o
      → parse_loop stoul stoi pending args perf ≡ begins perf'
      → parse_loop stoul stoi pending (args ++ word ∷ []) perf ≡ undefined
  unfolding parse_loop
  parse_loop-undefined none [] word o perf perf' k h = rw (parse_loop, k) refl
  parse_loop-undefined (some p) [] word o perf perf' k h = absurd (ground arith)
  parse_loop-undefined (some p) (arg ∷ args) word o perf perf' k h =
      read (set_option stoul stoi p arg perf) (λ q. parse_loop-undefined none args word o q perf' k)
        h
    where
      read :
          (first : Refusal ⊎ PerfContext)
          → ((q : PerfContext)
              → parse_loop stoul stoi none args q ≡ begins perf'
              → parse_loop stoul stoi none (args ++ word ∷ []) q ≡ undefined)
          → (let one : Outcome = elim first [
            | inl r ↦ refused r
            | inr q ↦ parse_loop stoul stoi none args q
          ] in
              one)
            ≡ begins perf'
          → (let both : Outcome = elim first [
            | inl r ↦ refused r
            | inr q ↦ parse_loop stoul stoi none (args ++ word ∷ []) q
          ] in
              both)
            ≡ undefined
      read (inl r) rest e = absurd (ground arith)
      read (inr q) rest e = rest q e
  parse_loop-undefined none (arg ∷ args) word o perf perf' k h =
      next (kind arg) h (λ pending q. parse_loop-undefined pending args word o q perf' k)
    where
      step : Kind → List String → Outcome
      step first args = elim first [
        | help ↦ usage
        | epoll_flag ↦ parse_loop stoul stoi none args (record perf { epoll = true })
        | unknown ↦ refused exits
        | address ↦ parse_loop stoul stoi none args (record perf { server_address = arg })
        | value p ↦ parse_loop stoul stoi (some p) args perf
      ]

      next :
          (first : Kind)
          → step first args ≡ begins perf'
          → ((pending : Option ValueOption) (q : PerfContext)
              → parse_loop stoul stoi pending args q ≡ begins perf'
              → parse_loop stoul stoi pending (args ++ word ∷ []) q ≡ undefined)
          → step first (args ++ word ∷ []) ≡ undefined
      next help e rest = absurd (ground arith)
      next epoll_flag e rest = rest none _ e
      next unknown e rest = absurd (ground arith)
      next address e rest = rest none _ e
      next (value p) e rest = rest (some p) perf e

  -- If `main` would begin the test with some arguments, then with an option that takes a string behind
  -- them it reads the string behind the last argument, which is undefined.
  pub parse-undefined :
      (args : List String) (word : String) (o : ValueOption) (perf : PerfContext)
      → kind word ≡ value o
      → parse stoul stoi args ≡ begins perf
      → parse stoul stoi (args ++ word ∷ []) ≡ undefined
  unfolding parse
  parse-undefined args word o perf k h = parse_loop-undefined none args word o perf_context perf k h
