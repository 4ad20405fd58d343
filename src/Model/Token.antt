-- ===== src/Model/Token.antt =====
-- Codes, tokens and keys: authorization_code.go, access_token.go, refresh_token.go, id_token.go,
-- access_token_claims.go, id_token_claims.go and sign_key.go of op/backend/internal/model.
use oidc_demo.Base.{ℕ, String, Bool, Option, List, ltb, is_some}

pub record AuthorizationCode : Type 0 where
  pub id : ℕ
  pub session_id : ℕ
  pub client_id : ℕ
  pub code : String
  pub redirect_uri : String
  pub scope : String
  pub nonce : Option String
  pub code_challenge : Option String
  pub code_challenge_method : Option String
  pub expires_at : ℕ
  pub used_at : Option ℕ

unfoldable pub is_used : AuthorizationCode → Bool
is_used ac = is_some ac.used_at

-- `ExpiresAt.Before(time.Now())`
unfoldable pub is_expired : ℕ → AuthorizationCode → Bool
is_expired now ac = ltb ac.expires_at now

pub record AccessToken : Type 0 where
  pub id : ℕ
  pub jti : String
  pub session_id : ℕ
  pub client_id : ℕ
  pub scope : String
  pub expires_at : ℕ
  pub revoked_at : Option ℕ

pub record RefreshToken : Type 0 where
  pub id : ℕ
  pub token_hash : String
  pub parent_id : Option ℕ
  pub session_id : ℕ
  pub access_token_id : ℕ
  pub expires_at : ℕ
  pub revoked_at : Option ℕ
  pub reuse_detected_at : Option ℕ

pub record IdToken : Type 0 where
  pub id : ℕ
  pub jti : String
  pub session_id : ℕ
  pub client_id : ℕ
  pub nonce : Option String
  pub expires_at : ℕ
  pub created_at : ℕ

pub record SignKey : Type 0 where
  pub id : ℕ
  pub kid : String
  pub algorithm : String
  pub public_key : String
  pub private_key_ref : String
  pub active : Bool
  pub created_at : ℕ
  pub rotated_at : Option ℕ

pub record AccessTokenClaims : Type 0 where
  pub issuer : String
  pub subject : String
  pub audience : String
  pub scope : String
  pub session_id : String

pub record AccessTokenResult : Type 0 where
  pub jti : String
  pub subject : ℕ
  pub client_id : String
  pub scope : String
  pub session_id : ℕ

pub record IdTokenClaims : Type 0 where
  pub issuer : String
  pub subject : String
  pub audience : String
  pub nonce : Option String
  pub auth_time : ℕ
  pub at_hash : String

-- The claims of a signed token. A claim that was not set is `none`.
pub record Jwt : Type 0 where
  pub issuer : String
  pub subject : Option String
  pub audience : List String
  pub issued_at : ℕ
  pub expiration : ℕ
  pub jwt_id : Option String
  pub scope : Option String
  pub sid : Option String
  pub auth_time : Option ℕ
  pub nonce : Option String
  pub at_hash : Option String

-- A public key of the key set, with its `kid`, `alg` and `use`.
pub record Jwk : Type 0 where
  pub public_key : List ℕ
  pub key_id : String
  pub algorithm : String
  pub key_usage : String
