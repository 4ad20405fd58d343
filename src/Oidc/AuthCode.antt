-- ===== src/Oidc/AuthCode.antt =====
-- token_authcode.go: the authorization code grant.
use oidc_demo.Base.{String, Bool, true, false, Option, none, some, not, ◌==◌, str_eq, if◌then◌else◌}
use oidc_demo.Model.{
  Client, Session, AuthorizationCode, is_used, is_expired, has_grant_type, Tenant, Uuid,
}
use oidc_demo.World.{
  Env, M, invalid_grant, internal, or_raise, raise_if, raise, ignore, time_now, pure, ◌>>=◌, ◌>>◌,
}
use oidc_demo.Http.{TokenResponse}
use oidc_demo.Crypto.{verify_code_challenge}
use oidc_demo.Store.Tenants
use oidc_demo.Store.AuthCodes
use oidc_demo.Store.AccessTokens
use oidc_demo.Store.RefreshTokens
use oidc_demo.Oidc.Config.{Config}
use oidc_demo.Oidc.Client.{authenticate_client}
use oidc_demo.Oidc.Issue.{issue_access_token, issue_id_token, issue_refresh_token}

pub record AuthCodeGrantInput : Type 0 where
  pub client_id : String
  pub client_secret : String
  pub code : String
  pub redirect_uri : String
  pub code_verifier : String

module _ (env : Env) where
  -- The stored challenge is there and the verifier does not answer it.
  unfoldable pub pkce_fails : Option String → String → Bool
  pkce_fails none code_verifier = false
  pkce_fails (some challenge) code_verifier =
      if str_eq challenge ""
      then false
      else if str_eq code_verifier ""
      then true
      else not (verify_code_challenge env code_verifier challenge)

  -- A code that is used a second time takes the tokens of its session with it.
  unfoldable pub reject_used : AuthorizationCode → M Unit
  reject_used ac = do
    ignore (AccessTokens.revoke_by_session_id env ac.session_id)
    ignore (RefreshTokens.revoke_by_session_id env ac.session_id)
    raise invalid_grant

  unfoldable pub check_unused : Client → AuthCodeGrantInput → AuthorizationCode → M Unit
  check_unused client input ac = do
    now ← time_now env
    raise_if (is_expired now ac) invalid_grant
    raise_if (not (ac.client_id == client.id)) invalid_grant
    raise_if (not (str_eq ac.redirect_uri input.redirect_uri)) invalid_grant
    raise_if (pkce_fails ac.code_challenge input.code_verifier) invalid_grant

  unfoldable pub check_auth_code : Client → AuthCodeGrantInput → AuthorizationCode → M Unit
  check_auth_code client input ac =
      if is_used ac then reject_used ac else check_unused client input ac

  module _ (config : Config) where
    unfoldable pub refresh_token_for : Client → Tenant → Uuid → Uuid → M String
    refresh_token_for client tenant session_id access_token_id =
        if has_grant_type client "refresh_token"
        then issue_refresh_token env config tenant none session_id access_token_id
        else pure ""

    -- From the tenant to the response.
    unfoldable pub issue_tokens : Client → AuthorizationCode → Session → M TokenResponse
    issue_tokens client ac session = do
      found ← Tenants.find_by_id env session.tenant_id
      tenant ← or_raise found internal
      access ← issue_access_token env config client tenant session ac.session_id ac.scope
      id_token ← issue_id_token env config client tenant session ac access.0
      refresh_token ← refresh_token_for client tenant ac.session_id access.1.id
      pure (record {
        access_token = access.0;
        token_type = "Bearer";
        expires_in = tenant.access_token_lifetime;
        refresh_token = refresh_token;
        id_token = id_token;
        scope = ac.scope;
      })

    unfoldable pub redeem : Client → AuthorizationCode → Session → M TokenResponse
    redeem client ac session = do AuthCodes.mark_as_used env ac.id; issue_tokens client ac session

    unfoldable pub handle_auth_code_grant_logic : AuthCodeGrantInput → M TokenResponse
    handle_auth_code_grant_logic input = do
      client ← authenticate_client env input.client_id input.client_secret
      found ← AuthCodes.find_by_code env input.code
      loaded ← or_raise found invalid_grant
      check_auth_code client input loaded.0
      redeem client loaded.0 loaded.1
