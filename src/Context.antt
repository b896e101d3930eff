-- ===== src/Context.antt =====
-- include/ucxpp/context.h and src/context.cc: the builder and the context. The values of the feature
-- flags are UCX's, so `flag` is a parameter.
pub mod Features
pub mod Build
use Prim.Native.Nat.{bit_or}
use ucxpp.Base.{ℕ, List, [], ◌∷◌, ◌++◌, Bool, true, false, Option, none, some, foldl, if◌then◌else◌}
use ucxpp.Errors.{Status, ok}
use ucxpp.Ucx.{
  Event, ucp_init, ucp_cleanup, undefined, Run, emit, check, pure, finally, ◌>>=◌, ◌>>◌,
}
use ucxpp.Config.{Config, config_new, config_destroy, config_handle, config_print}

-- The flags UCP_FEATURE_WAKEUP, …_TAG, …_STREAM, …_AM, …_RMA, …_AMO32 and …_AMO64.
pub data Feature : Type 0 where
  wakeup tag stream am rma amo32 amo64 : Feature

-- `enable_mt_` is `none` until it is set: the constructor leaves it out.
pub record Builder : Type 0 where
  pub features_ : ℕ
  pub print_config_ : Bool
  pub enable_mt_ : Option Bool

pub record Context : Type 0 where
  pub context_ : ℕ
  pub features_ : ℕ

-- `context::builder::builder`
unfoldable pub builder : Builder
builder = record { features_ = 0; print_config_ = false; enable_mt_ = none }

unfoldable pub enable_print_config : Builder → Builder
enable_print_config b = record b { print_config_ = true }

unfoldable pub enable_mt : Builder → Builder
enable_mt b = record b { enable_mt_ = some true }

module _ (flag : Feature → ℕ) where
  abbrev set_flag : Feature → Builder → Builder
  set_flag f b = record b { features_ = bit_or b.features_ (flag f) }

  unfoldable pub enable_wakeup : Builder → Builder
  enable_wakeup b = set_flag wakeup b

  unfoldable pub enable_tag : Builder → Builder
  enable_tag b = set_flag tag b

  unfoldable pub enable_stream : Builder → Builder
  enable_stream b = set_flag stream b

  unfoldable pub enable_am : Builder → Builder
  enable_am b = set_flag am b

  unfoldable pub enable_rma : Builder → Builder
  enable_rma b = set_flag rma b

  unfoldable pub enable_amo32 : Builder → Builder
  enable_amo32 b = set_flag amo32 b

  unfoldable pub enable_amo64 : Builder → Builder
  enable_amo64 b = set_flag amo64 b

-- What `ucp_config_read` and `ucp_init` return and store.
pub record Answers : Type 0 where
  pub read : Status × ℕ
  pub init : Status × ℕ

-- The body of the constructor, with the local `config` alive.
abbrev init_context :
    (features : ℕ) → (print_config enable_mt : Bool) → Status × ℕ → Config → Run Context
init_context features print_config enable_mt init c = do
  emit (ucp_init features enable_mt (config_handle c))
  check init.0 "failed to init ucp"
  (if print_config then config_print c else [], ok tt)
  pure (record { context_ = init.1; features_ = features })

-- `context::context`. The local `config` is destroyed however the constructor is left.
unfoldable pub context_new :
    (features : ℕ) → (print_config enable_mt : Bool) → Answers → Run Context
unfolding config_new config_destroy config_handle config_print
context_new features print_config enable_mt a = do
  c ← config_new a.read
  finally (init_context features print_config enable_mt a.init c) (config_destroy c)

-- `context::builder::build`. To read `enable_mt_` before it is set is undefined; `garbage` is what the
-- read gives.
unfoldable pub build : Builder → (garbage : Bool) → Answers → Run Context
unfolding context_new
build b garbage a = elim b.enable_mt_ [
  | some mt ↦ context_new b.features_ b.print_config_ mt a
  | none ↦ emit undefined >> context_new b.features_ b.print_config_ garbage a
]

-- `context::features`
unfoldable pub features : Context → ℕ
features c = c.features_

-- `context::handle`
unfoldable pub handle : Context → ℕ
handle c = c.context_

-- `context::~context`
unfoldable pub context_destroy : Context → List Event
context_destroy c = ucp_cleanup c.context_ ∷ []

-- A chain of calls on a builder.
pub data Call : Type 0 where
  print_config mt : Call
  enable : Feature → Call

module _ (flag : Feature → ℕ) where
  unfoldable pub call : Builder → Call → Builder
  unfolding enable_print_config enable_mt enable_wakeup enable_tag enable_stream enable_am
      enable_rma enable_amo32 enable_amo64
  call b print_config = enable_print_config b
  call b mt = enable_mt b
  call b (enable wakeup) = enable_wakeup flag b
  call b (enable tag) = enable_tag flag b
  call b (enable stream) = enable_stream flag b
  call b (enable am) = enable_am flag b
  call b (enable rma) = enable_rma flag b
  call b (enable amo32) = enable_amo32 flag b
  call b (enable amo64) = enable_amo64 flag b

  unfoldable pub calls : Builder → List Call → Builder
  unfolding call
  calls b [] = b
  calls b (c ∷ cs) = calls (call b c) cs
