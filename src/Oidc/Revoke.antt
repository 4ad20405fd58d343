-- ===== src/Oidc/Revoke.antt =====
-- revoke.go: POST /{tenant_code}/revoke.
use oidc_demo.Base.{String, Bool, true, false, Option, none, some, not, str_eq, if◌then◌else◌}
use oidc_demo.Crypto.Argon2id.{verify_password}
use oidc_demo.Model.{Client, AccessToken, AccessTokenResult}
use oidc_demo.World.{Env, World, Exec, attempt, or_raise, raise_if, ignore, pure, ◌>>=◌, ◌>>◌}
use oidc_demo.Http.{Request, Response, json, empty, respond}
use oidc_demo.Jwt.Tokens.{sha256_hex, validate_access_token}
use oidc_demo.Store.Clients
use oidc_demo.Store.AccessTokens
use oidc_demo.Store.RefreshTokens
use oidc_demo.Store.RefreshTokens.{Loaded}
use oidc_demo.Oidc.Config.{Config}
use oidc_demo.Oidc.Client.{extract_client_credentials, missing, verified, is_active}
use oidc_demo.Oidc.Token.{token_error}

-- A lookup that failed is answered as one that found nothing.
abbrev pub join_none {ℓ} : {A : Type ℓ} → Option (Option A) → Option A
join_none none = none
join_none (some o) = o

module _ (env : Env) where
  unfoldable pub revoke_found_access : Option AccessToken → Exec Response Bool
  revoke_found_access none = pure false
  revoke_found_access (some token) = do ignore (AccessTokens.revoke env token.id); pure true

  unfoldable pub revoke_validated : Option AccessTokenResult → Exec Response Bool
  unfolding revoke_found_access
  revoke_validated none = pure false
  revoke_validated (some result) = do
    found ← attempt (AccessTokens.find_by_jti env result.jti)
    revoke_found_access (join_none found)

  -- A refresh token goes with the access token that was issued beside it.
  unfoldable pub revoke_found_refresh : Option Loaded → Exec Response Bool
  revoke_found_refresh none = pure false
  revoke_found_refresh (some rt) = do
    ignore (RefreshTokens.revoke env rt.token.id)
    ignore (AccessTokens.revoke env rt.token.access_token_id)
    pure true

  unfoldable pub revoke_refresh_token : String → Exec Response Bool
  unfolding revoke_found_refresh
  revoke_refresh_token token = do
    found ← attempt (RefreshTokens.find_by_token_hash env (sha256_hex env token))
    revoke_found_refresh (join_none found)

  unfoldable pub authenticate : Request → Exec Response Client
  authenticate r = do
    let credentials = extract_client_credentials r
    raise_if (missing credentials) (token_error 401 "invalid_client" "client credentials required")
    found ← attempt (Clients.find_by_client_id env credentials.0)
    client ← or_raise (join_none found) (token_error 401 "invalid_client" "")
    raise_if (not (is_active client)) (token_error 401 "invalid_client" "")
    raise_if (not (verified (verify_password env credentials.1 client.client_secret_hash)))
        (token_error 401 "invalid_client" "")
    pure client

  module _ (config : Config) where
    unfoldable pub revoke_access_token : String → Exec Response Bool
    unfolding revoke_validated
    revoke_access_token token = do
      result ← attempt (validate_access_token env config.enc_key token)
      revoke_validated result

    -- The second kind is tried where the first finds nothing.
    unfoldable pub revoke_token : String → String → Exec Response Bool
    revoke_token hint token =
        if str_eq hint "refresh_token"
        then (do
          done ← revoke_refresh_token token
          if done then pure true else revoke_access_token token)
        else (do
          done ← revoke_access_token token
          if done then pure true else revoke_refresh_token token)

    unfoldable pub revoke : Request → Exec Response Response
    revoke r = do
      authenticate r
      raise_if (str_eq (r.form_value "token") "") (json 200 empty)
      revoke_token (r.form_value "token_type_hint") (r.form_value "token")
      pure (json 200 empty)

    unfoldable pub handle : Request → World → Response × World
    handle r = respond (revoke r)
