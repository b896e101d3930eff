-- ===== src/Raii/Conserved.antt =====
-- What any script does to the handles of an owning class.
use ucxpp.Base.{
  ℕ, zero, suc, ◌+◌, ◌≡◌, ◌≢◌, refl, ap, List, [], ◌∷◌, ◌++◌, some, Bool, true, arith, ◌==◌,
  if◌then◌else◌, get_elem?, set, Option-cases, inl, inr,
}
use ucxpp.Errors.{Result, ok, err}
use ucxpp.Ucx.{count_if, is_undefined, count_if-append}
use ucxpp.Raii.{
  Owner, Op, create, move_from, destroy, Store, remove_at, held, owners, added, step, run, created,
  empty,
}

abbrev pub All {ℓ} : {A : Type ℓ} → (A → Bool) → List A → Type 0
All p [] = Unit
All p (x ∷ xs) = (p x ≡ true) × All p xs

All-append {ℓ} :
    {A : Type ℓ} (p : A → Bool) (xs ys : List A) → All p xs → All p ys → All p (xs ++ ys)
All-append p [] ys hx hy = hy
All-append p (x ∷ xs) ys hx hy = (hx.0, All-append p xs ys hx.1 hy)

All-get {ℓ} :
    {A : Type ℓ} (p : A → Bool) (xs : List A) (i : ℕ) {o : A}
    → All p xs
    → get_elem? xs i ≡ some o
    → p o ≡ true
All-get p [] i h e = cc
All-get p (x ∷ xs) zero h e = ground arith
All-get p (x ∷ xs) (suc i) h e = All-get p xs i h.1 e

All-set {ℓ} :
    {A : Type ℓ} (p : A → Bool) (xs : List A) (i : ℕ) (v : A)
    → All p xs
    → p v ≡ true
    → All p (set xs i v)
All-set p [] i v h e = tt
All-set p (x ∷ xs) zero v h e = (e, h.1)
All-set p (x ∷ xs) (suc i) v h e = (h.0, All-set p xs i v h.1 e)

All-remove_at {ℓ} :
    {A : Type ℓ} (p : A → Bool) (xs : List A) (i : ℕ) → All p xs → All p (remove_at xs i)
All-remove_at p [] i h = tt
All-remove_at p (x ∷ xs) zero h = h.1
All-remove_at p (x ∷ xs) (suc i) h = (h.0, All-remove_at p xs i h.1)

module _ {O C : Type 0} (w : Owner O C) where
  pub record IsSound (s : Store O) : Type 0 where
    pub valid : All w.is_valid s.live
    pub defined : count_if is_undefined s.events ≡ 0

  owners-append : (h : ℕ) (xs ys : List O) → owners w h (xs ++ ys) ≡ owners w h xs + owners w h ys
  owners-append h [] ys = omega arith
  owners-append h (x ∷ xs) ys = omega (arith, owners-append h xs ys)

  held-move_new : (h : ℕ) (o : O) → held w h (w.move o).0 ≡ held w h o
  held-move_new h o = ap (λ (t : ℕ). if t == h then 1 else 0) (w.handle-move_new o)

  held-move_old : (h : ℕ) (o : O) → h ≢ 0 → held w h (w.move o).1 ≡ 0
  held-move_old h o nz = ground (arith, w.handle-move_old o)

  owners-set :
      (h : ℕ) (xs : List O) (i : ℕ) (v : O) {o : O}
      → get_elem? xs i ≡ some o
      → owners w h (set xs i v) + held w h o ≡ owners w h xs + held w h v
  owners-set h [] i v e = cc
  owners-set h (x ∷ xs) zero v {o} e = let p : x ≡ o = cc in omega (arith, ap (held w h) p)
  owners-set h (x ∷ xs) (suc i) v e = omega (arith, owners-set h xs i v e)

  owners-remove_at :
      (h : ℕ) (xs : List O) (i : ℕ) {o : O}
      → get_elem? xs i ≡ some o
      → owners w h (remove_at xs i) + held w h o ≡ owners w h xs
  owners-remove_at h [] i e = cc
  owners-remove_at h (x ∷ xs) zero {o} e = let p : x ≡ o = cc in omega (arith, ap (held w h) p)
  owners-remove_at h (x ∷ xs) (suc i) e = omega (arith, owners-remove_at h xs i e)

  added-valid : (c : C) (r : Result O) → (w.make c).1 ≡ r → All w.is_valid (added w r)
  added-valid c (ok o) e = (w.make-is_valid c o e, tt)
  added-valid c (err x) e = tt

  step-IsSound : (s : Store O) (op : Op C) → IsSound s → IsSound (step w s op)
  unfolding step
  step-IsSound s (create c) v = record {
    valid = All-append w.is_valid s.live _ v.valid (added-valid c (w.make c).1 refl);
    defined =
        omega (
          arith,
          count_if-append is_undefined s.events (w.make c).0,
          w.make-undefined c,
          v.defined,
        );
  }
  step-IsSound s (move_from i) v = elim (Option-cases (get_elem? s.live i)) [
    | inl e ↦ rw (e, step) v
    | inr (o, e) ↦
        let both = w.move-is_valid o (All-get w.is_valid s.live i v.valid e) in
        rw (e, step)
          (record {
            valid =
                All-append w.is_valid (set s.live i (w.move o).1) _
                  (All-set w.is_valid s.live i _ v.valid both.1) (both.0, tt);
            defined = v.defined;
          })
  ]
  step-IsSound s (destroy i) v = elim (Option-cases (get_elem? s.live i)) [
    | inl e ↦ rw (e, step) v
    | inr (o, e) ↦
        rw (e, step)
          (record {
            valid = All-remove_at w.is_valid s.live i v.valid;
            defined = omega (
              arith,
              count_if-append is_undefined s.events (w.destroy o),
              w.destroy-undefined o (All-get w.is_valid s.live i v.valid e),
              v.defined,
            );
          })
  ]

  -- The handles given back, and those still owned.
  abbrev balance : ℕ → Store O → ℕ
  balance h s = count_if (w.frees h) s.events + owners w h s.live

  step-balance :
      (s : Store O) (op : Op C) (h : ℕ)
      → h ≢ 0
      → IsSound s
      → balance h (step w s op) ≡ balance h s + created w h (op ∷ [])
  unfolding step
  step-balance s (create c) h nz v = omega (
    arith,
    count_if-append (w.frees h) s.events (w.make c).0,
    w.make-frees c h nz,
    owners-append h s.live (added w (w.make c).1),
  )
  step-balance s (move_from i) h nz v = elim (Option-cases (get_elem? s.live i)) [
    | inl e ↦ rw (e, step) (omega arith)
    | inr (o, e) ↦
        rw (e, step)
          (omega (
            arith,
            owners-append h (set s.live i (w.move o).1) ((w.move o).0 ∷ []),
            owners-set h s.live i (w.move o).1 e,
            held-move_new h o,
            held-move_old h o nz,
          ))
  ]
  step-balance s (destroy i) h nz v = elim (Option-cases (get_elem? s.live i)) [
    | inl e ↦ rw (e, step) (omega arith)
    | inr (o, e) ↦
        rw (e, step)
          (omega (
            arith,
            count_if-append (w.frees h) s.events (w.destroy o),
            w.destroy-frees o h nz (All-get w.is_valid s.live i v.valid e),
            owners-remove_at h s.live i e,
          ))
  ]

  created-cons :
      (h : ℕ) (op : Op C) (ops : List (Op C))
      → created w h (op ∷ ops) ≡ created w h (op ∷ []) + created w h ops
  created-cons h (create c) ops = omega arith
  created-cons h (move_from i) ops = omega arith
  created-cons h (destroy i) ops = omega arith

  run-balance :
      (s : Store O) (ops : List (Op C)) (h : ℕ)
      → h ≢ 0
      → IsSound s
      → (balance h (run w s ops) ≡ balance h s + created w h ops) × IsSound (run w s ops)
  unfolding run
  run-balance s [] h nz v = (omega arith, v)
  run-balance s (op ∷ ops) h nz v =
      let rest = run-balance (step w s op) ops h nz (step-IsSound s op v) in
      (omega (arith, rest.0, step-balance s op h nz v, created-cons h op ops), rest.1)

  -- After any script each handle has been given back, or is still owned, exactly as often as a
  -- constructor handed it out, and no step was undefined.
  pub run-conserved :
      (ops : List (Op C)) (h : ℕ)
      → h ≢ 0
      → (count_if (w.frees h) (run w empty ops).events + owners w h (run w empty ops).live
          ≡ created w h ops)
        × (count_if is_undefined (run w empty ops).events ≡ 0)
  run-conserved ops h nz =
      let all = run-balance empty ops h nz (record { valid = tt; defined = refl }) in
      (omega (arith, all.0), all.1.defined)
