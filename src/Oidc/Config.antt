-- ===== src/Oidc/Config.antt =====
-- What main.go gives the handlers: config.go, and the key that encrypts the signing keys.
use oidc_demo.Base.{String, Bool}
use oidc_demo.Env.{Bytes}

pub record Config : Type 0 where
  pub issuer_base_url : String
  pub login_page_url : String
  pub is_secure : Bool
  pub enc_key : Bytes
