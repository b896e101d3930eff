-- ===== src/Context/Features.antt =====
-- The feature set of src/context.cc: the flags that a chain of builder calls sets, and their test.
use Prim.Native.Nat.{bit_and, bit_or}
use mathlib.Core.Bool.{or-false}
use ucxpp.Base.{ℕ, ◌^◌, ◌≡◌, ap, ◌∙◌, sym, List, [], ◌∷◌, Bool, true, false, not, ◌||◌, arith, ◌==◌}
use ucxpp.Base.Bits.{test_bit, test_bit-bit_or, test_bit-pow, zero-test_bit, bit_and_pow}
use ucxpp.Context.{
  Feature, wakeup, tag, stream, am, rma, amo32, amo64, Builder, Call, print_config, mt, enable,
  call, calls, builder,
}

-- What UCX documents of the flags: each is one bit, and no two are the same.
pub record IsFlags (flag : Feature → ℕ) : Type 0 where
  pub bit : Feature → ℕ
  pub one_bit : (f : Feature) → flag f ≡ 2 ^ bit f
  pub distinct : (f g : Feature) → bit f ≡ bit g → f ≡ g

-- `features & flag`, as a condition.
abbrev pub has : (flag : Feature → ℕ) → Feature → ℕ → Bool
has flag f features = not (bit_and features (flag f) == 0)

abbrev pub Feature-discrete : Discrete Feature
Feature-discrete = hlevel

abbrev pub same : Feature → Feature → Bool
same f g = elim (Feature-discrete f g) [ yes e ↦ true | no e ↦ false ]

-- Whether a chain of calls enables the feature.
unfoldable pub enables : Feature → List Call → Bool
enables f [] = false
enables f (print_config ∷ cs) = enables f cs
enables f (mt ∷ cs) = enables f cs
enables f (enable g ∷ cs) = same g f || enables f cs

module _ (flag : Feature → ℕ) (flags : IsFlags flag) where
  has-test_bit : (f : Feature) (x : ℕ) → has flag f x ≡ test_bit x (flags.bit f)
  has-test_bit f x = rw (flags.one_bit f) (bit_and_pow x (flags.bit f))

  bit-same : (f g : Feature) → (flags.bit g == flags.bit f) ≡ same g f
  bit-same f g = elim (Feature-discrete g f) [
    | yes e ↦ ground (arith, ap flags.bit e)
    | no e ↦ ground (arith, flags.distinct g f)
  ]

  has-bit_or : (f g : Feature) (x : ℕ) → has flag f (bit_or x (flag g)) ≡ (has flag f x || same g f)
  has-bit_or f g x =
      has-test_bit f (bit_or x (flag g))
      ∙ test_bit-bit_or x (flag g) (flags.bit f)
      ∙ rw (
        flags.one_bit g,
        test_bit-pow (flags.bit g) (flags.bit f),
        bit-same f g,
        has-test_bit f x,
      )

  has-call :
      (f : Feature) (b : Builder) (c : Call)
      → has flag f (call flag b c).features_ ≡ (has flag f b.features_ || enables f (c ∷ []))
  unfolding call enables
  has-call f b print_config = sym (or-false _)
  has-call f b mt = sym (or-false _)
  has-call f b (enable wakeup) = rw or-false (has-bit_or f wakeup b.features_)
  has-call f b (enable tag) = rw or-false (has-bit_or f tag b.features_)
  has-call f b (enable stream) = rw or-false (has-bit_or f stream b.features_)
  has-call f b (enable am) = rw or-false (has-bit_or f am b.features_)
  has-call f b (enable rma) = rw or-false (has-bit_or f rma b.features_)
  has-call f b (enable amo32) = rw or-false (has-bit_or f amo32 b.features_)
  has-call f b (enable amo64) = rw or-false (has-bit_or f amo64 b.features_)

  has-calls :
      (f : Feature) (b : Builder) (cs : List Call)
      → has flag f (calls flag b cs).features_ ≡ (has flag f b.features_ || enables f cs)
  unfolding calls enables
  has-calls f b [] = sym (or-false _)
  has-calls f b (c ∷ cs) =
      has-calls f (call flag b c) cs
      ∙ ap (λ (t : Bool). t || enables f cs) (has-call f b c)
      ∙ or_step c
    where
      or_step :
          (c : Call)
          → ((has flag f b.features_ || enables f (c ∷ [])) || enables f cs)
            ≡ (has flag f b.features_ || enables f (c ∷ cs))
      or_step print_config = ground arith
      or_step mt = ground arith
      or_step (enable g) = ground arith

  -- After any chain of calls on a new builder the test `features & flag` succeeds for exactly the
  -- features that the chain enables, if the flags are single bits and no two the same: the calls may
  -- come in any order and be repeated, and the calls that set the other fields do not matter.
  pub has-builder :
      (f : Feature) (cs : List Call) → has flag f (calls flag builder cs).features_ ≡ enables f cs
  unfolding builder
  has-builder f cs =
      has-calls f builder cs
      ∙ ap (λ (t : Bool). t || enables f cs) (has-test_bit f 0 ∙ zero-test_bit (flags.bit f))
