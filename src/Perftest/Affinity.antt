-- ===== src/Perftest/Affinity.antt =====
-- examples/perftest.cc: `bind_cpu`. The sets of processors are those of the system, with its tests and
-- constructors, and its calls answer with a number that is 0 if they succeed.
use ucxpp.Base.{
  ℕ, ◌≡◌, refl, ◌⊎◌, inl, inr, List, [], ◌∷◌, Bool, true, false, ◌==◌, if◌then◌else◌, Bool-cases,
}

-- What the system documents of `CPU_ZERO`, `CPU_SET` and `CPU_ISSET`: nothing is in the empty set, and a
-- set with one more processor has no other ones more.
pub record CpuSets (C : Type 0) : Type 0 where
  pub zero : C
  pub set : (core : ℕ) → C → C
  pub is_set : (core : ℕ) → C → Bool
  pub is_set-zero : (core : ℕ) → is_set core zero ≡ false
  pub is_set-set :
      (core other : ℕ) (c : C)
      → is_set other (set core c) ≡ true
      → (other ≡ core) ⊎ (is_set other c ≡ true)

pub data Message : Type 0 where
  no_original no_affinity : Message
  not_in_mask : (core : ℕ) → Message

-- The set of processors of the thread, and what was printed.
pub record Affinity (C : Type 0) : Type 0 where
  pub cpuset : C
  pub printed : List Message

module _ {C : Type 0} (S : CpuSets C) where
  -- `bind_cpu`, where `get` and `set` are what the two calls of the system return.
  unfoldable pub bind_cpu : (core get set : ℕ) → C → Affinity C
  bind_cpu core get set original =
      if get == 0
      then (if S.is_set core original
          then (if set == 0
              then record { cpuset = S.set core S.zero; printed = [] }
              else record { cpuset = original; printed = no_affinity ∷ [] })
          else record { cpuset = original; printed = not_in_mask core ∷ [] })
      else record { cpuset = original; printed = no_original ∷ [] }

  -- Either something is printed and the thread keeps its processors, or it is bound to the one that was
  -- asked for, which was one of its own.
  abbrev IsBound : (core : ℕ) → (original : C) → Affinity C → Type 0
  IsBound core original a =
      ((a.cpuset ≡ original) × (a.printed ≡ [] → ⊥))
      ⊎ ((a.printed ≡ [])
          × (S.is_set core original ≡ true)
          × ((other : ℕ) → S.is_set other a.cpuset ≡ true → other ≡ core))

  pub bind_cpu-IsBound :
      (core get set : ℕ) (original : C) → IsBound core original (bind_cpu core get set original)
  unfolding bind_cpu
  bind_cpu-IsBound core get set original = elim (Bool-cases (get == 0)) [
    | inr e ↦ rw e (inl (refl, λ h. cc))
    | inl e ↦ elim (Bool-cases (S.is_set core original)) [
      | inr f ↦ rw (e, f) (inl (refl, λ h. cc))
      | inl f ↦ elim (Bool-cases (set == 0)) [
        | inr g ↦ rw (e, f, g) (inl (refl, λ h. cc))
        | inl g ↦ rw (e, f, g) (inr (refl, refl, only))
      ]
    ]
  ]
    where
      only : (other : ℕ) → S.is_set other (S.set core S.zero) ≡ true → other ≡ core
      only other h = elim (S.is_set-set core other S.zero h) [
        | inl e ↦ e
        | inr z ↦ cc (z, S.is_set-zero other)
      ]
