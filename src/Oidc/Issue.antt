-- ===== src/Oidc/Issue.antt =====
-- The writes of both grants: signing a token, and keeping its row.
use Prim.Native.String.{◌++◌ as join}
use oidc_demo.Base.{◌+◌, String, Option, none}
use oidc_demo.Model.{
  Uuid, Time, Tenant, Client, Session, AuthorizationCode, AccessToken, RefreshToken, IdToken,
}
use oidc_demo.Model.Time.{duration}
use oidc_demo.World.{Env, M, time_now, pure, ◌>>=◌, ◌>>◌}
use oidc_demo.Jwt.Tokens.{sign_access_token, sign_id_token, generate_refresh_token, compute_at_hash}
use oidc_demo.Store.AccessTokens
use oidc_demo.Store.RefreshTokens
use oidc_demo.Store.IdTokens
use oidc_demo.Oidc.Config.{Config}

-- `issuerBaseURL + "/" + tenant.Code`
unfoldable pub issuer : Config → Tenant → String
issuer config tenant = join config.issuer_base_url (join "/" tenant.code)

abbrev new_access : String → Uuid → Uuid → String → Time → Uuid → Time → AccessToken
new_access jti session_id client_id scope expires_at id at = record {
  id = id;
  jti = jti;
  session_id = session_id;
  client_id = client_id;
  scope = scope;
  expires_at = expires_at;
  revoked_at = none;
}

abbrev new_id_token : String → Uuid → Uuid → Option String → Time → Uuid → Time → IdToken
new_id_token jti session_id client_id nonce expires_at id at = record {
  id = id;
  jti = jti;
  session_id = session_id;
  client_id = client_id;
  nonce = nonce;
  expires_at = expires_at;
  created_at = at;
}

abbrev new_refresh : String → Option Uuid → Uuid → Uuid → Time → Uuid → Time → RefreshToken
new_refresh token_hash parent_id session_id access_token_id expires_at id at = record {
  id = id;
  token_hash = token_hash;
  parent_id = parent_id;
  session_id = session_id;
  access_token_id = access_token_id;
  expires_at = expires_at;
  revoked_at = none;
  reuse_detected_at = none;
}

module _ (env : Env) (config : Config) where
  -- An access token for the session's user, with its row.
  unfoldable pub issue_access_token :
      Client → Tenant → Session → Uuid → String → M (String × AccessToken)
  issue_access_token client tenant session session_id scope = do
    signed ←
        sign_access_token env config.enc_key
          (record {
            issuer = issuer config tenant;
            subject = env.uuid_string session.user_id;
            audience = client.client_id;
            scope = scope;
            session_id = env.uuid_string session_id;
          })
          (duration tenant.access_token_lifetime)
    now ← time_now env
    row ← AccessTokens.create_token env (
        new_access signed.0 session_id client.id scope
          (now + duration tenant.access_token_lifetime))
    pure (signed.1, row)

  unfoldable pub issue_id_token : Client → Tenant → Session → AuthorizationCode → String → M String
  issue_id_token client tenant session ac access_token = do
    signed ←
        sign_id_token env config.enc_key
          (record {
            issuer = issuer config tenant;
            subject = env.uuid_string session.user_id;
            audience = client.client_id;
            nonce = ac.nonce;
            auth_time = session.created_at;
            at_hash = compute_at_hash env access_token;
          })
          (duration tenant.id_token_lifetime)
    now ← time_now env
    IdTokens.create_token env (
        new_id_token signed.0 ac.session_id client.id ac.nonce
          (now + duration tenant.id_token_lifetime))
    pure signed.1

  unfoldable pub issue_refresh_token : Tenant → Option Uuid → Uuid → Uuid → M String
  issue_refresh_token tenant parent_id session_id access_token_id = do
    generated ← generate_refresh_token env
    now ← time_now env
    RefreshTokens.create_token env (
        new_refresh generated.1 parent_id session_id access_token_id
          (now + duration tenant.refresh_token_lifetime))
    pure generated.0
