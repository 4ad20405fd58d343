-- ===== src/Server/Startup.antt =====
-- main.go before the first request: the settings, the key service, and a signing key.
pub mod Started
use oidc_demo.Base.{ℕ, String, Bool, Option, none, some, length, ◌==◌, if◌then◌else◌}
use oidc_demo.Env.{Env, Bytes}
use oidc_demo.World.{M, Result, internal, lift, map_err, or_raise, pure, ◌>>=◌, ◌>>◌}
use oidc_demo.Config as Settings
use oidc_demo.Config.{load, is_secure}
use oidc_demo.Oidc.Config.{Config}
use oidc_demo.Jwt.Keys.{ensure_signing_key}

abbrev checked_key : Option Bytes → Option Bytes
checked_key none = none
checked_key (some enc_key) = if length enc_key == 32 then some enc_key else none

module _ (env : Env) where
  -- NewKeyService of key_service.go: the key is 64 hexadecimal characters.
  unfoldable pub new_key_service : String → Option Bytes
  new_key_service enc_key_hex = checked_key (env.hex_decode enc_key_hex)

  -- What the handlers take from the settings.
  unfoldable pub handlers_config : Settings.Config → Bytes → Config
  handlers_config cfg enc_key = record {
    issuer_base_url = cfg.base_url;
    login_page_url = cfg.frontend_base_url;
    is_secure = is_secure cfg;
    enc_key = enc_key;
  }

  -- An error ends the program.
  unfoldable pub start_up : (String → String) → M Config
  start_up getenv = do
    cfg ← map_err (λ (e : String). internal) (lift (load getenv))
    enc_key ← or_raise (new_key_service cfg.key_encryption_key) internal
    ensure_signing_key env enc_key
    pure (handlers_config cfg enc_key)
