-- ===== src/Oidc/Handlers.antt =====
-- No handler of the OIDC endpoints takes back the use of a code or a revocation.
use oidc_demo.Base.{String, Option, none, some}
use oidc_demo.Gorm.{GormLaws}
use oidc_demo.Env.{Env}
use oidc_demo.Model.{Uuid, Tenant, Client, AccessToken, AccessTokenResult}
use oidc_demo.Http.{Request}
use oidc_demo.Progress.{Grows, grows_rules, codes_rules, tokens_rules, others_rules}
use oidc_demo.Jwt.Progress.{jwt_rules}
use oidc_demo.Auth.Progress.{Grows-validate_session}
use oidc_demo.Oidc.Progress.{
  Grows-handle_auth_code_grant_logic, Grows-handle_refresh_token_grant_logic,
}
use oidc_demo.Store.AccessTokens
use oidc_demo.Store.RefreshTokens
use oidc_demo.Store.RefreshTokens.{Loaded}
use oidc_demo.Oidc.Config.{Config}
use oidc_demo.Oidc.Token.{grant, handle_auth_code_grant, handle_refresh_token_grant}
use oidc_demo.Oidc.Revoke.{
  revoke_found_access, revoke_validated, revoke_access_token, revoke_found_refresh,
  revoke_refresh_token, revoke_token, authenticate, revoke,
}
use oidc_demo.Oidc.UserInfo.{find_live, user_info}
use oidc_demo.Oidc.Discovery.{discover, jwks}
use oidc_demo.Oidc.Authorize.{
  check_client, check_request, session_at, current_session, issue_code, require_session, authorize,
}

module _ (env : Env) where
  Grows-find_live : (jti : String) → Grows (find_live env jti)
  unfolding find_live
  Grows-find_live jti = search (grows_rules, tokens_rules) depth 14

  Grows-check_client : (tenant : Tenant) (r : Request) → Grows (check_client env tenant r)
  unfolding check_client
  Grows-check_client tenant r = search (grows_rules, others_rules) depth 22

  Grows-check_request : (client : Client) (r : Request) → Grows (check_request env client r)
  unfolding check_request
  Grows-check_request client r = search grows_rules depth 14

  Grows-session_at : (tenant : Tenant) (id : Option Uuid) → Grows (session_at env tenant id)
  unfolding session_at
  Grows-session_at tenant none = search grows_rules depth 14
  Grows-session_at tenant (some id) = search (grows_rules, Grows-validate_session) depth 14

  Grows-current_session : (tenant : Tenant) (r : Request) → Grows (current_session env tenant r)
  unfolding current_session
  Grows-current_session tenant r = search Grows-session_at

  Grows-authenticate : (r : Request) → Grows (authenticate env r)
  unfolding authenticate
  Grows-authenticate r = search (grows_rules, others_rules) depth 14

  module _ (config : Config) where
    Grows-require_session :
        (session : Option Uuid) (r : Request) → Grows (require_session env config session r)
    unfolding require_session
    Grows-require_session session r = search grows_rules depth 14

    pub Grows-user_info : (r : Request) → Grows (user_info env config r)
    unfolding user_info
    Grows-user_info r = search (grows_rules, jwt_rules, others_rules, Grows-find_live) depth 14

    pub Grows-discover : (r : Request) → Grows (discover env config r)
    unfolding discover
    Grows-discover r = search (grows_rules, others_rules) depth 14

    pub Grows-jwks : Grows (jwks env config)
    unfolding jwks
    Grows-jwks = search (grows_rules, jwt_rules) depth 14

module _ (env : Env) (laws : GormLaws env.gorm) where
  Grows-issue_code :
      (tenant : Tenant) (client : Client) (id : Uuid) (r : Request)
      → Grows (issue_code env tenant client id r)
  unfolding issue_code
  Grows-issue_code tenant client id r = search (grows_rules, codes_rules) depth 14

  Grows-revoke_found_access : (o : Option AccessToken) → Grows (revoke_found_access env o)
  unfolding revoke_found_access AccessTokens.revoke
  Grows-revoke_found_access none = search grows_rules depth 14
  Grows-revoke_found_access (some t) = search (grows_rules, tokens_rules) depth 14

  Grows-revoke_validated : (o : Option AccessTokenResult) → Grows (revoke_validated env o)
  unfolding revoke_validated
  Grows-revoke_validated none = search grows_rules depth 14
  Grows-revoke_validated (some t) =
      search (grows_rules, tokens_rules, Grows-revoke_found_access) depth 14

  Grows-revoke_found_refresh : (o : Option Loaded) → Grows (revoke_found_refresh env o)
  unfolding revoke_found_refresh RefreshTokens.revoke AccessTokens.revoke
  Grows-revoke_found_refresh none = search grows_rules depth 14
  Grows-revoke_found_refresh (some t) = search (grows_rules, tokens_rules) depth 14

  Grows-revoke_refresh_token : (t : String) → Grows (revoke_refresh_token env t)
  unfolding revoke_refresh_token
  Grows-revoke_refresh_token t =
      search (grows_rules, tokens_rules, Grows-revoke_found_refresh) depth 14

  module _ (config : Config) where
    pub Grows-authorize : (r : Request) → Grows (authorize env config r)
    unfolding authorize
    Grows-authorize r =
        search
          (
            grows_rules, others_rules, Grows-check_client, Grows-check_request,
            Grows-current_session, Grows-require_session, Grows-issue_code,
          )
          depth 18

    Grows-handle_auth_code_grant : (r : Request) → Grows (handle_auth_code_grant env config r)
    unfolding handle_auth_code_grant
    Grows-handle_auth_code_grant r =
        search (grows_rules, Grows-handle_auth_code_grant_logic) depth 14

    Grows-handle_refresh_token_grant :
        (r : Request) → Grows (handle_refresh_token_grant env config r)
    unfolding handle_refresh_token_grant
    Grows-handle_refresh_token_grant r =
        search (grows_rules, Grows-handle_refresh_token_grant_logic) depth 14

    pub Grows-grant : (r : Request) → Grows (grant env config r)
    unfolding grant
    Grows-grant r =
        search (grows_rules, Grows-handle_auth_code_grant, Grows-handle_refresh_token_grant) depth
          14

    Grows-revoke_access_token : (t : String) → Grows (revoke_access_token env config t)
    unfolding revoke_access_token
    Grows-revoke_access_token t = search (grows_rules, jwt_rules, Grows-revoke_validated) depth 14

    Grows-revoke_token : (hint t : String) → Grows (revoke_token env config hint t)
    unfolding revoke_token
    Grows-revoke_token hint t =
        search (grows_rules, Grows-revoke_access_token, Grows-revoke_refresh_token) depth 14

    pub Grows-revoke : (r : Request) → Grows (revoke env config r)
    unfolding revoke
    Grows-revoke r = search (grows_rules, Grows-authenticate, Grows-revoke_token) depth 14
