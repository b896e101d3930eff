-- ===== src/Context/Build.antt =====
-- How a context is built by src/context.cc: the configuration, and a field that was never set.
use ucxpp.Base.{
  ℕ, ◌≡◌, refl, ap, ◌∙◌, List, [], ◌∷◌, Bool, true, false, Option, some, arith, ◌==◌, if◌then◌else◌,
}
use ucxpp.Errors.{succeeded, check_ucs_status}
use ucxpp.Ucx.{Event, ucp_config_release, count_if, is_undefined}
use ucxpp.Context.{
  Feature, wakeup, Builder, Call, print_config, mt, enable, call, calls, builder, Answers,
  context_new, build,
}

abbrev pub is_config_release : ℕ → Event → Bool
is_config_release c (ucp_config_release d) = d == c
is_config_release c _ = false

-- The native configuration that the constructor reads is released exactly once, whether the
-- constructor returns or throws, and no release is made if it could not be read.
pub context_new-config_release :
    (fs : ℕ) (print shared : Bool) (a : Answers)
    → count_if (is_config_release a.read.1) (context_new fs print shared a).0
      ≡ (if succeeded a.read.0 then 1 else 0)
unfolding context_new check_ucs_status
context_new-config_release fs print shared a = ground arith

-- Whether a chain of calls holds `enable_mt`.
unfoldable pub sets_mt : List Call → Bool
sets_mt [] = false
sets_mt (mt ∷ cs) = true
sets_mt (print_config ∷ cs) = sets_mt cs
sets_mt (enable f ∷ cs) = sets_mt cs

module _ (flag : Feature → ℕ) where
  call-enable : (b : Builder) (f : Feature) → (call flag b (enable f)).enable_mt_ ≡ b.enable_mt_
  unfolding call
  call-enable b wakeup = refl
  call-enable b _ = refl

  calls-enable_mt :
      (b : Builder) (cs : List Call)
      → (calls flag b cs).enable_mt_ ≡ (if sets_mt cs then some true else b.enable_mt_)
  unfolding calls sets_mt call
  calls-enable_mt b [] = refl
  calls-enable_mt b (print_config ∷ cs) = calls-enable_mt (call flag b print_config) cs
  calls-enable_mt b (mt ∷ cs) = calls-enable_mt (call flag b mt) cs ∙ ground arith
  calls-enable_mt b (enable f ∷ cs) =
      calls-enable_mt (call flag b (enable f)) cs
      ∙ ap (λ (t : Option Bool). if sets_mt cs then some true else t) (call-enable b f)

  -- `build` reads a field that was never set exactly when no call of the chain was `enable_mt`;
  -- otherwise what it does is defined, whatever UCX answers.
  pub build-undefined :
      (cs : List Call) (garbage : Bool) (a : Answers)
      → count_if is_undefined (build (calls flag builder cs) garbage a).0
        ≡ (if sets_mt cs then 0 else 1)
  unfolding build builder check_ucs_status
  build-undefined cs garbage a = ground (arith, calls-enable_mt builder cs)
