-- ===== src/Oidc/Refresh.antt =====
-- token_refresh.go: the refresh token grant, with rotation and reuse detection.
use oidc_demo.Base.{String, some, not, is_some, ltb, str_eq, if◌then◌else◌}
use oidc_demo.Model.{Client, Session, RefreshToken, has_grant_type}
use oidc_demo.World.{
  Env, M, invalid_grant, unsupported_grant_type, internal, or_raise, raise_if, raise, ignore,
  time_now, pure, ◌>>=◌, ◌>>◌,
}
use oidc_demo.Http.{TokenResponse}
use oidc_demo.Jwt.Tokens.{sha256_hex}
use oidc_demo.Store.Tenants
use oidc_demo.Store.AccessTokens
use oidc_demo.Store.RefreshTokens
use oidc_demo.Store.RefreshTokens.{Loaded}
use oidc_demo.Oidc.Config.{Config}
use oidc_demo.Oidc.Client.{authenticate_client}
use oidc_demo.Oidc.Issue.{issue_access_token, issue_refresh_token}

pub record RefreshTokenGrantInput : Type 0 where
  pub client_id : String
  pub client_secret : String
  pub refresh_token : String
  pub scope : String

-- The requested scope, where one is given.
unfoldable pub granted_scope : String → String → String
granted_scope original requested = if str_eq requested "" then original else requested

module _ (env : Env) where
  -- A revoked token that is presented again takes the tokens of its session with it.
  unfoldable pub reject_reused : RefreshToken → M Unit
  reject_reused rt = do
    ignore (RefreshTokens.mark_reuse_detected env rt.id)
    ignore (AccessTokens.revoke_by_session_id env rt.session_id)
    ignore (RefreshTokens.revoke_by_session_id env rt.session_id)
    raise invalid_grant

  -- Each test reads the clock where it stands; the second only if the session is not revoked.
  unfoldable pub check_session : Session → M Unit
  check_session session =
      if is_some session.revoked_at
      then raise invalid_grant
      else (do now ← time_now env; raise_if (ltb session.expires_at now) invalid_grant)

  unfoldable pub check_live : RefreshToken → Session → M Unit
  check_live rt session = do
    now ← time_now env
    raise_if (ltb rt.expires_at now) invalid_grant
    check_session session

  unfoldable pub check_refresh_token : RefreshToken → Session → M Unit
  check_refresh_token rt session =
      if is_some rt.revoked_at then reject_reused rt else check_live rt session

  module _ (config : Config) where
    -- From the tenant to the response.
    unfoldable pub issue_rotated : Client → RefreshTokenGrantInput → Loaded → M TokenResponse
    issue_rotated client input rt = do
      found ← Tenants.find_by_id env rt.session.tenant_id
      tenant ← or_raise found internal
      access ←
          issue_access_token env config client tenant rt.session rt.token.session_id
            (granted_scope rt.access_token.scope input.scope)
      refresh_token ←
          issue_refresh_token env config tenant (some rt.token.id) rt.token.session_id access.1.id
      pure (record {
        access_token = access.0;
        token_type = "Bearer";
        expires_in = tenant.access_token_lifetime;
        refresh_token = refresh_token;
        id_token = "";
        scope = granted_scope rt.access_token.scope input.scope;
      })

    unfoldable pub rotate : Client → RefreshTokenGrantInput → Loaded → M TokenResponse
    rotate client input rt = do
      RefreshTokens.revoke env rt.token.id
      ignore (AccessTokens.revoke env rt.token.access_token_id)
      issue_rotated client input rt

    unfoldable pub handle_refresh_token_grant_logic : RefreshTokenGrantInput → M TokenResponse
    handle_refresh_token_grant_logic input = do
      client ← authenticate_client env input.client_id input.client_secret
      raise_if (not (has_grant_type client "refresh_token")) unsupported_grant_type
      found ← RefreshTokens.find_by_token_hash env (sha256_hex env input.refresh_token)
      rt ← or_raise found invalid_grant
      check_refresh_token rt.token rt.session
      rotate client input rt
