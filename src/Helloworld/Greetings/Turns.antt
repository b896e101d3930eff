-- ===== src/Helloworld/Greetings/Turns.antt =====
-- The messages of examples/helloworld.cc come to one end only, whoever is run when.
use mathlib.Core.Path.{subst}
use ucxpp.Base.{
  ℕ, zero, suc, ◌-◌, ◌≤◌, ◌≡◌, refl, ap, sym, ◌∙◌, inl, inr, List, [], ◌∷◌, ◌++◌, String, Bool,
  true, false, not, Option, Option-cases, none, some, length, arith,
}
use ucxpp.Helloworld.Finish.{paired}
use ucxpp.Helloworld.Greetings.{
  received_message, received_stream, read_from_server, wrote_to_server, written_by_client, Meeting,
  Region, empty_box, says, said, talk, connected,
}

-- The end that is meant: nothing is under way, the client has received the key, and each side printed
-- what the other one sent.
abbrev pub finished : (hello world : String) → Region → Meeting
finished hello world region = record {
  client = record {
    script = [];
    buffer = world;
    received = region.remote_addr ∷ region.rkey_length ∷ region.packed_rkey ∷ [];
    printed =
        (received_message, hello)
        ∷ (received_stream, hello)
        ∷ (read_from_server, hello)
        ∷ (wrote_to_server, world)
        ∷ [];
  };
  server = record {
    script = [];
    buffer = world;
    received = [];
    printed =
        (received_message, world) ∷ (received_stream, world) ∷ (written_by_client, world) ∷ [];
  };
  to_client = empty_box;
  to_server = empty_box;
}

-- Someone can go on, and whoever does, `n` statements lead to the end.
abbrev Leads : (end : Meeting) → (n : ℕ) → Meeting → Type 0
Leads end zero m = m ≡ end
Leads end (suc n) m =
    ((who : Bool) × (m' : Meeting) × (says who m ≡ some m'))
    × ((who : Bool) (m' : Meeting) → says who m ≡ some m' → Leads end n m')

-- Where all runs of `n` statements come to; nothing for a run that cannot go on before.
explore : (n : ℕ) → Meeting → List (Option Meeting)
explore zero m = some m ∷ []
explore (suc n) m = elim (says true m) [
  | none ↦ elim (says false m) [ none ↦ none ∷ [] | some b ↦ explore n b ]
  | some a ↦ explore n a ++ elim (says false m) [ none ↦ [] | some b ↦ explore n b ]
]

abbrev AreAll : (end : Meeting) → List (Option Meeting) → Type 0
AreAll end [] = Unit
AreAll end (none ∷ l) = ⊥
AreAll end (some m ∷ l) = (m ≡ end) × AreAll end l

AreAll-append :
    (end : Meeting) (l l' : List (Option Meeting))
    → AreAll end (l ++ l')
    → AreAll end l × AreAll end l'
AreAll-append end [] l' h = (tt, h)
AreAll-append end (none ∷ l) l' h = absurd h
AreAll-append end (some m ∷ l) l' h = let (a, b) = AreAll-append end l l' h.1 in ((h.0, a), b)

none≢some : (m : Meeting) → none ≡ some m → ⊥
none≢some m h = cc

-- The one meeting that a statement leads to.
only :
    (P : Meeting → Type 0) (r : Option Meeting) (a m' : Meeting)
    → r ≡ some a
    → P a
    → r ≡ some m'
    → P m'
only P r a m' e h e' = let same : a ≡ m' = cc in subst P same h

explore-Leads : (end : Meeting) (n : ℕ) (m : Meeting) → AreAll end (explore n m) → Leads end n m
unfolding explore
explore-Leads end zero m h = h.0
explore-Leads end (suc n) m h = elim (Option-cases (says true m)) [
  | inl e ↦ elim (Option-cases (says false m)) [
    | inl f ↦ absurd (rw (explore, e, f) at h)
    | inr (b, f) ↦
        let after = explore-Leads end n b (rw (explore, e, f) at h) in
        ((false, b, f), one e f after)
  ]
  | inr (a, e) ↦ elim (Option-cases (says false m)) [
    | inl f ↦
        let h' = AreAll-append end (explore n a) [] (rw (explore, e, f) at h) in
        ((true, a, e), two e f (explore-Leads end n a h'.0))
    | inr (b, f) ↦
        let h' = AreAll-append end (explore n a) (explore n b) (rw (explore, e, f) at h) in
        ((true, a, e), both e f (explore-Leads end n a h'.0) (explore-Leads end n b h'.1))
  ]
]
  where
    Next : Type 0
    Next = (who : Bool) (m' : Meeting) → says who m ≡ some m' → Leads end n m'

    one : {b : Meeting} → says true m ≡ none → says false m ≡ some b → Leads end n b → Next
    one e f after true m' s = absurd (none≢some m' (sym e ∙ s))
    one {b} e f after false m' s = only (Leads end n) (says false m) b m' f after s

    two : {a : Meeting} → says true m ≡ some a → says false m ≡ none → Leads end n a → Next
    two {a} e f after true m' s = only (Leads end n) (says true m) a m' e after s
    two e f after false m' s = absurd (none≢some m' (sym f ∙ s))

    both :
        {a b : Meeting}
        → says true m ≡ some a
        → says false m ≡ some b
        → Leads end n a
        → Leads end n b
        → Next
    both {a} e f h k true m' s = only (Leads end n) (says true m) a m' e h s
    both {a} {b} e f h k false m' s = only (Leads end n) (says false m) b m' f k s

module _ (end : Meeting) (ended : (who : Bool) → says who end ≡ none) where
  -- `k` statements at the most lead to the end.
  abbrev LeadsWithin : (n : ℕ) → Meeting → Type 0
  LeadsWithin n m = (k : ℕ) × (k ≤ n) × Leads end k m

  said-none : (who : Bool) (m : Meeting) → says who m ≡ none → said who m ≡ m
  unfolding said
  said-none who m e = rw (e, said) refl

  said-some : (who : Bool) (m m' : Meeting) → says who m ≡ some m' → said who m ≡ m'
  unfolding said
  said-some who m m' e = rw (e, said) refl

  -- A chance for one side; and if the side can go on, one statement less is to come.
  said-Leads : (who : Bool) (n : ℕ) (m : Meeting) → Leads end n m → LeadsWithin n (said who m)
  said-Leads who zero m h = (0, omega arith, said-none who m (ap (says who) h ∙ ended who) ∙ h)
  said-Leads who (suc n) m h = elim (Option-cases (says who m)) [
    | inl e ↦ (suc n, omega arith, subst (Leads end (suc n)) (sym (said-none who m e)) h)
    | inr (m', e) ↦
        (n, omega arith, subst (Leads end n) (sym (said-some who m m' e)) (h.1 who m' e))
  ]

  -- A chance for the one side and then for the other.
  round-Leads :
      (b : Bool) (n : ℕ) (m : Meeting)
      → Leads end n m
      → LeadsWithin (n - 1) (said (not b) (said b m))
  round-Leads b zero m h =
      let (k, le, h') = said-Leads b 0 m h in
      let (k', le', h'') = said-Leads (not b) k (said b m) h' in (k', omega arith, h'')
  round-Leads b (suc n) m h = elim (Option-cases (says b m)) [
    | inr (m', e) ↦
        let h' = subst (Leads end n) (sym (said-some b m m' e)) (h.1 b m' e) in
        let (k, le, h'') = said-Leads (not b) n (said b m) h' in (k, omega arith, h'')
    | inl e ↦
        let (m', f) = other b e h.0 in
        (
          n,
          omega arith,
          subst (λ x. Leads end n (said (not b) x)) (sym (said-none b m e))
              (subst (Leads end n) (sym (said-some (not b) m m' f)) (h.1 (not b) m' f)),
        )
  ]
    where
      other :
          (b : Bool)
          → says b m ≡ none
          → ((who : Bool) × (m' : Meeting) × (says who m ≡ some m'))
          → (m' : Meeting) × (says (not b) m ≡ some m')
      other true e (true, m', f) = absurd (none≢some m' (sym e ∙ f))
      other true e (false, m', f) = (m', f)
      other false e (true, m', f) = (m', f)
      other false e (false, m', f) = absurd (none≢some m' (sym e ∙ f))

  rounds-Leads :
      (bs : List Bool) (n : ℕ) (m : Meeting)
      → Leads end n m
      → LeadsWithin (n - length bs) (talk (paired bs) m)
  unfolding talk
  rounds-Leads [] n m h = (n, omega arith, h)
  rounds-Leads (b ∷ bs) n m h =
      let (k, le, h') = round-Leads b n m h in
      let (k', le', h'') = rounds-Leads bs k (said (not b) (said b m)) h' in (k', omega arith, h'')

  Leads-over : (n : ℕ) (m : Meeting) → n ≤ 0 → Leads end n m → m ≡ end
  Leads-over zero m le h = h
  Leads-over (suc n) m le h = absurd (omega arith)

module _ (hello world garbage : String) (region : Region) where
  connected-Leads : Leads (finished hello world region) 30 (connected hello world garbage region)
  unfolding explore says
  connected-Leads =
      explore-Leads (finished hello world region) 30 (connected hello world garbage region)
        (refl, (refl, (refl, (refl, (refl, tt)))))

  finished-ends : (who : Bool) → says who (finished hello world region) ≡ none
  unfolding says
  finished-ends true = refl
  finished-ends false = refl

  -- After 30 rounds or more, in each of which both get one chance to go on, the one first or the
  -- other, both have come to the first bell, nothing is under way, and both have printed the texts
  -- that the other one sent or wrote.
  pub talk-finishes :
      (bs : List Bool)
      → 30 ≤ length bs
      → talk (paired bs) (connected hello world garbage region) ≡ finished hello world region
  talk-finishes bs enough =
      let (k, le, h) =
        rounds-Leads (finished hello world region) finished-ends bs 30 _ connected-Leads in
      Leads-over (finished hello world region) finished-ends k _ (omega arith) h
