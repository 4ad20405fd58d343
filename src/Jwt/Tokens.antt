-- ===== src/Jwt/Tokens.antt =====
-- token_service.go
use Prim.Native.Nat.{◌/◌}
use oidc_demo.Base.{
  ℕ, ◌+◌, String, Option, none, some, List, [], ◌∷◌, length, str_eq, if◌then◌else◌,
}
use oidc_demo.Model.{AccessTokenClaims, AccessTokenResult, IdTokenClaims, Jwt}
use oidc_demo.Model.Time.{second}
use oidc_demo.Env.{Env, Bytes}
use oidc_demo.World.{M, or_raise, rand_read, time_now, new_uuid, jwt_parse, pure, internal, ◌>>=◌}
use oidc_demo.Crypto.{take}
use oidc_demo.Jwt.Keys.{get_active_signing_key, get_jwk_set}

abbrev pub or_empty : Option String → String
or_empty none = ""
or_empty (some s) = s

abbrev pub head_or_empty : List String → String
head_or_empty [] = ""
head_or_empty (s ∷ rest) = s

unfoldable pub id_token_jwt : IdTokenClaims → ℕ → ℕ → String → Jwt
id_token_jwt claims lifetime now jti = record {
  issuer = claims.issuer;
  subject = some claims.subject;
  audience = claims.audience ∷ [];
  issued_at = now;
  expiration = now + lifetime;
  jwt_id = some jti;
  scope = none;
  sid = none;
  auth_time = some (claims.auth_time / second);
  nonce = claims.nonce;
  at_hash = if str_eq claims.at_hash "" then none else some claims.at_hash;
}

unfoldable pub access_token_jwt : AccessTokenClaims → ℕ → ℕ → String → Jwt
access_token_jwt claims lifetime now jti = record {
  issuer = claims.issuer;
  subject = some claims.subject;
  audience = claims.audience ∷ [];
  issued_at = now;
  expiration = now + lifetime;
  jwt_id = some jti;
  scope = some claims.scope;
  sid = some claims.session_id;
  auth_time = none;
  nonce = none;
  at_hash = none;
}

module _ (env : Env) where
  unfoldable pub sha256_hex : String → String
  sha256_hex s = env.hex_encode (env.sha256 s)

  unfoldable pub compute_at_hash : String → String
  compute_at_hash access_token =
      let hash = env.sha256 access_token in env.base64_raw_url (take (length hash / 2) hash)

  unfoldable pub generate_refresh_token : M (String × String)
  generate_refresh_token = do
    token_bytes ← rand_read env 32
    pure (env.hex_encode token_bytes, sha256_hex (env.hex_encode token_bytes))

  module _ (enc_key : Bytes) where
    unfoldable pub sign_id_token : IdTokenClaims → ℕ → M (String × String)
    sign_id_token claims lifetime = do
      key ← get_active_signing_key env enc_key
      now ← time_now env
      jti ← new_uuid env
      signed ← or_raise (env.jwt_sign key.0 key.1 (id_token_jwt claims lifetime now jti)) internal
      pure (jti, signed)

    unfoldable pub sign_access_token : AccessTokenClaims → ℕ → M (String × String)
    sign_access_token claims lifetime = do
      key ← get_active_signing_key env enc_key
      now ← time_now env
      jti ← new_uuid env
      signed ←
          or_raise (env.jwt_sign key.0 key.1 (access_token_jwt claims lifetime now jti)) internal
      pure (jti, signed)

    unfoldable pub validate_access_token : String → M AccessTokenResult
    validate_access_token token_string = do
      keys ← get_jwk_set env enc_key
      parsed ← jwt_parse env keys token_string
      token ← or_raise parsed internal
      subject ← or_raise (env.uuid_parse (or_empty token.subject)) internal
      session_id ← or_raise (env.uuid_parse (or_empty token.sid)) internal
      pure (record {
        jti = or_empty token.jwt_id;
        subject = subject;
        client_id = head_or_empty token.audience;
        scope = or_empty token.scope;
        session_id = session_id;
      })
