-- ===== src/Perftest/Printing.antt =====
-- Command lines of examples/perftest.cc, and what `main` reads from them.
use ucxpp.Base.{
  ℕ, ◌%◌, ◌^◌, ◌<◌, ◌≡◌, ◌≢◌, refl, ap, ◌∙◌, List, [], ◌∷◌, ◌++◌, String, Bool, true, false, Option,
  none, some, ◌⊎◌, inl, inr, arith,
}
use ucxpp.Base.Int.{ℤ, pos}
use ucxpp.Perftest.Options.{
  TestCategory, tag_test, stream_test, rma_test, PerfContext, perf_context, Refusal, Outcome,
  refused, throws, begins, number, ValueOption, test_option, core_option, concurrency_option,
  size_option, iterations_option, warmup_option, port_option, address, value, kind, set_option,
  parse_loop, parse,
}

-- `std::to_string` and its readers: what one writes the others read, in the ranges of their types.
pub record Decimal : Type 0 where
  pub to_string : ℕ → String
  pub stoul : String → Option ℕ
  pub stoi : String → Option ℤ
  pub stoul-to_string : (n : ℕ) → n < 2 ^ 64 → stoul (to_string n) ≡ some n
  pub stoi-to_string : (n : ℕ) → n < 2 ^ 31 → stoi (to_string n) ≡ some (pos n)

abbrev pub IsInRange : Option ℕ → Type 0
IsInRange none = Unit
IsInRange (some n) = n < 2 ^ 31

-- What a command line can ask for.
pub record IsValid (p : PerfContext) : Type 0 where
  pub not_rma : p.test ≢ rma_test
  pub concurrency_fits : p.concurrency < 2 ^ 64
  pub size_fits : p.message_size < 2 ^ 64
  pub iterations_fits : p.iterations < 2 ^ 64
  pub warmup_fits : p.warmup_iterations < 2 ^ 64
  pub port_fits : p.server_port < 2 ^ 16
  pub core_fits : IsInRange p.core

abbrev pub test_name : TestCategory → String
test_name stream_test = "stream"
test_name _ = "tag"

module _ (D : Decimal) where
  abbrev core_words : Option ℕ → List String
  core_words none = []
  core_words (some n) = "-c" ∷ D.to_string n ∷ []

  abbrev epoll_words : Bool → List String
  epoll_words false = []
  epoll_words true = "-e" ∷ []

  abbrev number_words : PerfContext → List String
  number_words p =
      "-o"
      ∷ D.to_string p.concurrency
      ∷ "-s"
      ∷ D.to_string p.message_size
      ∷ "-n"
      ∷ D.to_string p.iterations
      ∷ "-w"
      ∷ D.to_string p.warmup_iterations
      ∷ "-p"
      ∷ D.to_string p.server_port
      ∷ []

  -- A command line that asks for `p`, with the address last.
  unfoldable pub command_line : PerfContext → List String
  command_line p =
      "-t"
      ∷ test_name p.test
      ∷ (number_words p ++ (core_words p.core ++ (epoll_words p.epoll ++ p.server_address ∷ [])))

  -- An option with its string.
  parse-option :
      (o : ValueOption) (word arg : String) (rest : List String) (perf perf' : PerfContext)
      → kind word ≡ value o
      → set_option D.stoul D.stoi o arg perf ≡ inr perf'
      → parse_loop D.stoul D.stoi none (word ∷ arg ∷ rest) perf
        ≡ parse_loop D.stoul D.stoi none rest perf'
  unfolding parse_loop
  parse-option o word arg rest perf perf' k e = rw (parse_loop, k) (ap after e)
    where
      after : Refusal ⊎ PerfContext → Outcome
      after r = elim r [ inl r ↦ refused r | inr q ↦ parse_loop D.stoul D.stoi none rest q ]

  numbered :
      (arg : String) (n : ℕ) (f : ℕ → PerfContext)
      → D.stoul arg ≡ some n
      → number D.stoul D.stoi arg f ≡ inr (f n)
  numbered arg n f e = ap read e
    where
      read : Option ℕ → Refusal ⊎ PerfContext
      read r = elim r [ none ↦ inl throws | some m ↦ inr (f m) ]

  set-number :
      (arg : String) (n : ℕ) (perf : PerfContext)
      → D.stoul arg ≡ some n
      → (set_option D.stoul D.stoi concurrency_option arg perf
          ≡ inr (record perf { concurrency = n }))
        × (set_option D.stoul D.stoi size_option arg perf ≡ inr (record perf { message_size = n }))
        × (set_option D.stoul D.stoi iterations_option arg perf
            ≡ inr (record perf { iterations = n }))
        × (set_option D.stoul D.stoi warmup_option arg perf
            ≡ inr (record perf { warmup_iterations = n }))
        × (set_option D.stoul D.stoi port_option arg perf
            ≡ inr (record perf { server_port = n % 2 ^ 16 }))
  unfolding set_option
  set-number arg n perf e = (
    numbered arg n (λ m. record perf { concurrency = m }) e,
    numbered arg n (λ m. record perf { message_size = m }) e,
    numbered arg n (λ m. record perf { iterations = m }) e,
    numbered arg n (λ m. record perf { warmup_iterations = m }) e,
    numbered arg n (λ m. record perf { server_port = m % 2 ^ 16 }) e,
  )

  set-test :
      (t : TestCategory) (perf : PerfContext)
      → t ≢ rma_test
      → set_option D.stoul D.stoi test_option (test_name t) perf ≡ inr (record perf { test = t })
  unfolding set_option
  set-test tag_test perf h = refl
  set-test stream_test perf h = refl
  set-test rma_test perf h = absurd (h refl)

  set-core :
      (n : ℕ) (perf : PerfContext)
      → n < 2 ^ 31
      → set_option D.stoul D.stoi core_option (D.to_string n) perf
        ≡ inr (record perf { core = some n })
  unfolding set_option
  set-core n perf h =
      let small : n % 2 ^ 64 ≡ n = omega (arith, h) in
      rw (set_option, D.stoi-to_string n h)
        (ap (λ (m : ℕ). inr (record perf { core = some m })) small)

  parse-core :
      (c : Option ℕ) (words : List String) (perf : PerfContext)
      → IsInRange c
      → perf.core ≡ none
      → parse_loop D.stoul D.stoi none (core_words c ++ words) perf
        ≡ parse_loop D.stoul D.stoi none words (record perf { core = c })
  unfolding kind
  parse-core none words perf h e =
      ap (λ (c : Option ℕ). parse_loop D.stoul D.stoi none words (record perf { core = c })) e
  parse-core (some n) words perf h e =
      parse-option core_option "-c" (D.to_string n) words perf _ refl (set-core n perf h)

  parse-epoll :
      (b : Bool) (words : List String) (perf : PerfContext)
      → perf.epoll ≡ false
      → parse_loop D.stoul D.stoi none (epoll_words b ++ words) perf
        ≡ parse_loop D.stoul D.stoi none words (record perf { epoll = b })
  unfolding parse_loop kind
  parse-epoll false words perf e =
      ap (λ (b : Bool). parse_loop D.stoul D.stoi none words (record perf { epoll = b })) e
  parse-epoll true words perf e = refl

  parse-address :
      (a : String) (perf : PerfContext)
      → kind a ≡ address
      → parse_loop D.stoul D.stoi none (a ∷ []) perf ≡ begins (record perf { server_address = a })
  unfolding parse_loop
  parse-address a perf h = rw (parse_loop, h) refl

  -- The options with numbers, in the order of `command_line`.
  parse-numbers :
      (p : PerfContext) (words : List String) (perf : PerfContext)
      → IsValid p
      → parse_loop D.stoul D.stoi none (number_words p ++ words) perf
        ≡ parse_loop D.stoul D.stoi none words (record perf {
          concurrency = p.concurrency;
          message_size = p.message_size;
          iterations = p.iterations;
          warmup_iterations = p.warmup_iterations;
          server_port = p.server_port;
        })
  unfolding kind
  parse-numbers p words perf v =
      parse-option concurrency_option "-o" _ _ perf _ refl
        (set-number _ _ perf (D.stoul-to_string p.concurrency v.concurrency_fits)).0
      ∙ parse-option size_option "-s" _ _ _ _ refl
          (set-number _ _ _ (D.stoul-to_string p.message_size v.size_fits)).1
      ∙ parse-option iterations_option "-n" _ _ _ _ refl
          (set-number _ _ _ (D.stoul-to_string p.iterations v.iterations_fits)).2
      ∙ parse-option warmup_option "-w" _ _ _ _ refl
          (set-number _ _ _ (D.stoul-to_string p.warmup_iterations v.warmup_fits)).3
      ∙ parse-option port_option "-p" _ words _ _ refl
          (set-number _ _ _ (D.stoul-to_string p.server_port (omega (arith, v.port_fits)))).4
      ∙ ap
          (λ (n : ℕ). parse_loop D.stoul D.stoi none words (record perf {
            concurrency = p.concurrency;
            message_size = p.message_size;
            iterations = p.iterations;
            warmup_iterations = p.warmup_iterations;
            server_port = n;
          }))
          (omega (arith, v.port_fits))

  -- From a command line that asks for valid parameters, with an address that does not read as an
  -- option, `main` reads exactly these.
  pub parse-command_line :
      (p : PerfContext)
      → IsValid p
      → kind p.server_address ≡ address
      → parse D.stoul D.stoi (command_line p) ≡ begins p
  unfolding parse command_line perf_context kind
  parse-command_line p v h =
      parse-option test_option "-t" (test_name p.test)
        (number_words p ++ (core_words p.core ++ (epoll_words p.epoll ++ p.server_address ∷ [])))
        perf_context (record perf_context { test = p.test }) refl
        (set-test p.test perf_context v.not_rma)
      ∙ parse-numbers p (core_words p.core ++ (epoll_words p.epoll ++ p.server_address ∷ []))
          (record perf_context { test = p.test }) v
      ∙ parse-core p.core (epoll_words p.epoll ++ p.server_address ∷ []) _ v.core_fits refl
      ∙ parse-epoll p.epoll (p.server_address ∷ []) _ refl
      ∙ parse-address p.server_address _ h
