-- ===== src/Oidc/Progress.antt =====
-- No request at the token endpoint takes back the use of a code or a revocation.
use oidc_demo.Base.{String, Option}
use oidc_demo.Gorm.{GormLaws}
use oidc_demo.Env.{Env}
use oidc_demo.Model.{Client, Tenant, Session, Uuid, AuthorizationCode, RefreshToken}
use oidc_demo.Progress.{Grows, grows_rules, codes_rules, tokens_rules, others_rules}
use oidc_demo.Jwt.Progress.{jwt_rules}
use oidc_demo.Store.RefreshTokens.{Loaded}
use oidc_demo.Oidc.Config.{Config}
use oidc_demo.Oidc.Client.{authenticate_client}
use oidc_demo.Oidc.Issue.{issue_access_token, issue_id_token, issue_refresh_token}
use oidc_demo.Oidc.AuthCode.{
  AuthCodeGrantInput, reject_used, check_unused, check_auth_code, refresh_token_for, issue_tokens,
  redeem, handle_auth_code_grant_logic,
}
use oidc_demo.Oidc.Refresh.{
  RefreshTokenGrantInput, reject_reused, check_session, check_live, check_refresh_token,
  issue_rotated, rotate, handle_refresh_token_grant_logic,
}
use oidc_demo.Store.AccessTokens
use oidc_demo.Store.RefreshTokens

pub Grows-authenticate_client :
    (env : Env) (id secret : String) → Grows (authenticate_client env id secret)
unfolding authenticate_client
Grows-authenticate_client env id secret = search (grows_rules, others_rules) depth 14

module _ (env : Env) (laws : GormLaws env.gorm) where
  Grows-revoke_access_tokens : (id : Uuid) → Grows (AccessTokens.revoke_by_session_id env id)
  unfolding AccessTokens.revoke_by_session_id
  Grows-revoke_access_tokens id = search tokens_rules

  Grows-revoke_refresh_tokens : (id : Uuid) → Grows (RefreshTokens.revoke_by_session_id env id)
  unfolding RefreshTokens.revoke_by_session_id
  Grows-revoke_refresh_tokens id = search tokens_rules

  Grows-reject_used : (ac : AuthorizationCode) → Grows (reject_used env ac)
  unfolding reject_used
  Grows-reject_used ac =
      search (grows_rules, Grows-revoke_access_tokens, Grows-revoke_refresh_tokens) depth 14

  Grows-check_unused :
      (client : Client) (input : AuthCodeGrantInput) (ac : AuthorizationCode)
      → Grows (check_unused env client input ac)
  unfolding check_unused
  Grows-check_unused client input ac = search grows_rules depth 14

  pub Grows-check_auth_code :
      (client : Client) (input : AuthCodeGrantInput) (ac : AuthorizationCode)
      → Grows (check_auth_code env client input ac)
  unfolding check_auth_code
  Grows-check_auth_code client input ac =
      search (grows_rules, Grows-reject_used, Grows-check_unused) depth 14

  Grows-reject_reused : (rt : RefreshToken) → Grows (reject_reused env rt)
  unfolding reject_reused
  Grows-reject_reused rt =
      search (grows_rules, tokens_rules, Grows-revoke_access_tokens, Grows-revoke_refresh_tokens)
        depth 14

  Grows-check_session : (session : Session) → Grows (check_session env session)
  unfolding check_session
  Grows-check_session session = search grows_rules depth 14

  pub Grows-check_refresh_token :
      (rt : RefreshToken) (session : Session) → Grows (check_refresh_token env rt session)
  unfolding check_refresh_token check_live
  Grows-check_refresh_token rt session =
      search (grows_rules, Grows-reject_reused, Grows-check_session) depth 14

  module _ (config : Config) where
    Grows-issue_access_token :
        (client : Client) (tenant : Tenant) (session : Session) (id : Uuid) (scope : String)
        → Grows (issue_access_token env config client tenant session id scope)
    unfolding issue_access_token
    Grows-issue_access_token client tenant session id scope =
        search (grows_rules, jwt_rules, tokens_rules) depth 14

    Grows-issue_id_token :
        (client : Client) (tenant : Tenant) (session : Session) (ac : AuthorizationCode)
        (access_token : String)
        → Grows (issue_id_token env config client tenant session ac access_token)
    unfolding issue_id_token
    Grows-issue_id_token client tenant session ac access_token =
        search (grows_rules, jwt_rules, others_rules) depth 14

    Grows-issue_refresh_token :
        (tenant : Tenant) (parent : Option Uuid) (session access : Uuid)
        → Grows (issue_refresh_token env config tenant parent session access)
    unfolding issue_refresh_token
    Grows-issue_refresh_token tenant parent session access =
        search (grows_rules, jwt_rules, tokens_rules) depth 14

    Grows-refresh_token_for :
        (client : Client) (tenant : Tenant) (session access : Uuid)
        → Grows (refresh_token_for env config client tenant session access)
    unfolding refresh_token_for
    Grows-refresh_token_for client tenant session access =
        search (grows_rules, Grows-issue_refresh_token) depth 14

    pub Grows-issue_tokens :
        (client : Client) (ac : AuthorizationCode) (session : Session)
        → Grows (issue_tokens env config client ac session)
    unfolding issue_tokens
    Grows-issue_tokens client ac session =
        search
          (
            grows_rules, others_rules, Grows-issue_access_token, Grows-issue_id_token,
            Grows-refresh_token_for,
          )
          depth 18

    Grows-redeem :
        (client : Client) (ac : AuthorizationCode) (session : Session)
        → Grows (redeem env config client ac session)
    unfolding redeem
    Grows-redeem client ac session = search (grows_rules, codes_rules, Grows-issue_tokens) depth 14

    pub Grows-issue_rotated :
        (client : Client) (input : RefreshTokenGrantInput) (rt : Loaded)
        → Grows (issue_rotated env config client input rt)
    unfolding issue_rotated
    Grows-issue_rotated client input rt =
        search (grows_rules, others_rules, Grows-issue_access_token, Grows-issue_refresh_token)
          depth 18

    Grows-rotate :
        (client : Client) (input : RefreshTokenGrantInput) (rt : Loaded)
        → Grows (rotate env config client input rt)
    unfolding rotate RefreshTokens.revoke AccessTokens.revoke
    Grows-rotate client input rt = search (grows_rules, tokens_rules, Grows-issue_rotated) depth 14

    pub Grows-handle_auth_code_grant_logic :
        (input : AuthCodeGrantInput) → Grows (handle_auth_code_grant_logic env config input)
    unfolding handle_auth_code_grant_logic
    Grows-handle_auth_code_grant_logic input =
        search
          (grows_rules, codes_rules, Grows-authenticate_client, Grows-check_auth_code, Grows-redeem)
          depth 14

    pub Grows-handle_refresh_token_grant_logic :
        (input : RefreshTokenGrantInput) → Grows (handle_refresh_token_grant_logic env config input)
    unfolding handle_refresh_token_grant_logic
    Grows-handle_refresh_token_grant_logic input =
        search
          (
            grows_rules, tokens_rules, Grows-authenticate_client, Grows-check_refresh_token,
            Grows-rotate,
          )
          depth 14
