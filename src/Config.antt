-- ===== src/Config.antt =====
-- include/ucxpp/config.h and src/config.cc: the owner of a native configuration.
use ucxpp.Base.{ℕ, List, [], ◌∷◌, String}
use ucxpp.Errors.{Status}
use ucxpp.Ucx.{
  Event, ucp_config_read, ucp_config_modify, ucp_config_print, ucp_config_release, Run, emit, check,
  pure, ◌>>◌,
}

pub record Config : Type 0 where
  pub config_ : ℕ

-- `config::config`; `read` is what `ucp_config_read` returns and stores.
unfoldable pub config_new : (read : Status × ℕ) → Run Config
config_new read = do
  emit ucp_config_read
  check read.0 "failed to read ucp config"
  pure (record { config_ = read.1 })

-- `config::~config`
unfoldable pub config_destroy : Config → List Event
config_destroy c = ucp_config_release c.config_ ∷ []

-- `config::handle`
unfoldable pub config_handle : Config → ℕ
config_handle c = c.config_

-- `config::modify`; `modified` is what `ucp_config_modify` returns.
unfoldable pub config_modify : Config → (name value : String) → (modified : Status) → Run (Unit {0})
config_modify c name value modified = do
  emit (ucp_config_modify c.config_ name value)
  check modified "failed to modify ucp config"

-- `config::print`
unfoldable pub config_print : Config → List Event
config_print c = ucp_config_print c.config_ ∷ []
