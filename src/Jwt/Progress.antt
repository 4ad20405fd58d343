-- ===== src/Jwt/Progress.antt =====
-- Signing and checking tokens undoes no revocation.
use oidc_demo.Base.{ℕ, String}
use oidc_demo.Gorm.{GormLaws}
use oidc_demo.Env.{Env, Bytes}
use oidc_demo.Model.{AccessTokenClaims, IdTokenClaims}
use oidc_demo.Crypto.{encrypt}
use oidc_demo.Progress.{Grows, grows_rules, others_rules}
use oidc_demo.Jwt.Keys.{generate_and_save_key, rotate_key, get_active_signing_key, get_jwk_set}
use oidc_demo.Jwt.Tokens.{
  generate_refresh_token, sign_id_token, sign_access_token, validate_access_token,
}

module _ (env : Env) (enc_key : Bytes) where
  Grows-encrypt : (plaintext key : Bytes) → Grows (encrypt env plaintext key)
  unfolding encrypt
  Grows-encrypt plaintext key = search grows_rules depth 14

  pub Grows-get_active_signing_key : Grows (get_active_signing_key env enc_key)
  unfolding get_active_signing_key
  Grows-get_active_signing_key = search (grows_rules, others_rules) depth 14

  pub Grows-sign_id_token :
      (claims : IdTokenClaims) (lifetime : ℕ) → Grows (sign_id_token env enc_key claims lifetime)
  unfolding sign_id_token
  Grows-sign_id_token claims lifetime = search (grows_rules, Grows-get_active_signing_key) depth 14

  pub Grows-sign_access_token :
      (claims : AccessTokenClaims) (lifetime : ℕ)
      → Grows (sign_access_token env enc_key claims lifetime)
  unfolding sign_access_token
  Grows-sign_access_token claims lifetime =
      search (grows_rules, Grows-get_active_signing_key) depth 14

  pub Grows-get_jwk_set : Grows (get_jwk_set env enc_key)
  unfolding get_jwk_set
  Grows-get_jwk_set = search (grows_rules, others_rules) depth 14

  pub Grows-validate_access_token : (text : String) → Grows (validate_access_token env enc_key text)
  unfolding validate_access_token
  Grows-validate_access_token text = search (grows_rules, Grows-get_jwk_set) depth 14

  module _ (laws : GormLaws env.gorm) where
    Grows-generate_and_save_key : Grows (generate_and_save_key env enc_key)
    unfolding generate_and_save_key
    Grows-generate_and_save_key = search (grows_rules, others_rules, Grows-encrypt) depth 14

    pub Grows-rotate_key : Grows (rotate_key env enc_key)
    unfolding rotate_key
    Grows-rotate_key = search (grows_rules, others_rules, Grows-generate_and_save_key) depth 14

pub Grows-generate_refresh_token : (env : Env) → Grows (generate_refresh_token env)
unfolding generate_refresh_token
Grows-generate_refresh_token env = search grows_rules depth 14

pub ruleset jwt_rules = (
  Grows-get_active_signing_key, Grows-sign_id_token, Grows-sign_access_token, Grows-get_jwk_set,
  Grows-validate_access_token, Grows-rotate_key, Grows-generate_refresh_token,
)
