-- ===== src/Oidc/Authorize.antt =====
-- authorize.go: GET /{tenant_code}/authorize.
use Prim.Native.String.{◌++◌ as join}
use oidc_demo.Base.{
  ◌+◌, String, Bool, Option, none, some, List, [], ◌∷◌, ◌++◌, ◌&&◌, not, any, is_some, str_eq, ◌==◌,
  split, contains, if◌then◌else◌,
}
use oidc_demo.Model.{
  Uuid, Time, Tenant, Client, RedirectUri, Session, AuthorizationCode, has_grant_type,
}
use oidc_demo.Model.Time.{duration}
use oidc_demo.World.{
  Env, World, Exec, attempt, or_raise, raise_if, rand_read, time_now, pure, ◌>>=◌, ◌>>◌,
}
use oidc_demo.Http.{
  Request, Response, json, error, redirect, server_error, or_server_error, respond,
}
use oidc_demo.Store.Tenants
use oidc_demo.Store.Clients
use oidc_demo.Store.AuthCodes
use oidc_demo.Auth.Service.{validate_session}
use oidc_demo.Oidc.Config.{Config}
use oidc_demo.Oidc.Client.{is_active}
use oidc_demo.Oidc.Discovery.{not_found}

unfoldable pub is_registered_redirect_uri : List RedirectUri → String → Bool
is_registered_redirect_uri registered uri = any (λ r. str_eq r.uri uri) registered

unfoldable pub error_response_direct : String → String → Response
error_response_direct code description = json 400 (error code description)

abbrev pub param : String → String → List (String × String)
param name value = if str_eq value "" then [] else (name, value) ∷ []

-- A value that is kept only if the request has it.
abbrev pub given : String → Option String
given s = if str_eq s "" then none else some s

abbrev new_code : Request → Client → Uuid → String → Time → Uuid → Time → AuthorizationCode
new_code r client session_id code expires_at id at = record {
  id = id;
  session_id = session_id;
  client_id = client.id;
  code = code;
  redirect_uri = r.query_param "redirect_uri";
  scope = r.query_param "scope";
  nonce = given (r.query_param "nonce");
  code_challenge = given (r.query_param "code_challenge");
  code_challenge_method = given (r.query_param "code_challenge_method");
  expires_at = expires_at;
  used_at = none;
}

module _ (env : Env) where
  abbrev pub found_at : String → List (String × String) → Response
  found_at uri params = if env.url_parses uri then json 302 (redirect uri params) else server_error

  unfoldable pub error_redirect : String → String → String → String → Response
  error_redirect uri state code description =
      found_at uri
        (("error", code) ∷ (param "error_description" description ++ param "state" state))

  unfoldable pub redirect_to_login : Config → Request → Response
  redirect_to_login config r =
      found_at (join config.login_page_url "/login")
        (("tenant_code", r.tenant_code) ∷ ("redirect_after_login", r.url) ∷ [])

  -- The tests whose failure is answered directly: no redirect URI is trusted yet.
  unfoldable pub check_client : Tenant → Request → Exec Response Client
  check_client tenant r = do
    raise_if (not (str_eq (r.query_param "response_type") "code"))
        (error_response_direct "unsupported_response_type" "only response_type=code is supported")
    raise_if (str_eq (r.query_param "client_id") "")
        (error_response_direct "invalid_request" "client_id is required")
    found ←
        or_server_error
          (Clients.find_by_client_id_with_redirect_uris env (r.query_param "client_id"))
    client ← or_raise found (error_response_direct "invalid_request" "unknown client_id")
    raise_if (not (is_active client.0))
        (error_response_direct "invalid_request" "unknown client_id")
    raise_if (not (client.0.tenant_id == tenant.id))
        (error_response_direct "invalid_request" "client does not belong to this tenant")
    raise_if (str_eq (r.query_param "redirect_uri") "")
        (error_response_direct "invalid_request" "redirect_uri is required")
    raise_if (not (is_registered_redirect_uri client.1 (r.query_param "redirect_uri")))
        (error_response_direct "invalid_request" "redirect_uri mismatch")
    pure client.0

  abbrev back : Request → String → String → Response
  back r = error_redirect (r.query_param "redirect_uri") (r.query_param "state")

  -- The tests whose failure is sent back to the client.
  unfoldable pub check_request : Client → Request → Exec Response Unit
  check_request client r = do
    raise_if (not (contains (split 32 (r.query_param "scope")) "openid"))
        (back r "invalid_scope" "openid scope is required")
    raise_if (not (has_grant_type client "authorization_code"))
        (back r "unauthorized_client" "client does not support authorization_code grant")
    raise_if (client.require_pkce && str_eq (r.query_param "code_challenge") "")
        (back r "invalid_request" "code_challenge is required")
    raise_if (client.require_pkce && not (str_eq (r.query_param "code_challenge_method") "S256"))
        (back r "invalid_request" "only S256 code_challenge_method is supported")

  -- The id in the cookie, if it has the form of one.
  abbrev cookie_session : Option String → Option Uuid
  cookie_session none = none
  cookie_session (some value) = env.uuid_parse value

  abbrev of_tenant : Tenant → Option Session → Option Uuid
  of_tenant tenant none = none
  of_tenant tenant (some session) = if session.tenant_id == tenant.id then some session.id else none

  unfoldable pub session_at : Tenant → Option Uuid → Exec Response (Option Uuid)
  session_at tenant none = pure none
  session_at tenant (some id) = do
    session ← attempt (validate_session env id)
    pure (of_tenant tenant session)

  -- The valid session of this tenant, if the browser has one.
  unfoldable pub current_session : Tenant → Request → Exec Response (Option Uuid)
  unfolding session_at
  current_session tenant r = session_at tenant (cookie_session (r.cookie "op_session"))

  unfoldable pub issue_code : Tenant → Client → Uuid → Request → Exec Response Response
  issue_code tenant client session_id r = do
    code_bytes ← or_server_error (rand_read env 32)
    now ← or_server_error (time_now env)
    or_server_error (
        AuthCodes.create_code env (
          new_code r client session_id (env.hex_encode code_bytes)
            (now + duration tenant.auth_code_lifetime)))
    pure (
        found_at (r.query_param "redirect_uri")
          (("code", env.hex_encode code_bytes) ∷ param "state" (r.query_param "state")))

  module _ (config : Config) where
    -- `prompt` may forbid a login page, or ask for one.
    unfoldable pub require_session : Option Uuid → Request → Exec Response Uuid
    require_session session r = do
      raise_if (str_eq (r.query_param "prompt") "none" && not (is_some session))
          (back r "login_required" "")
      or_raise (if str_eq (r.query_param "prompt") "login" then none else session)
          (redirect_to_login config r)

    unfoldable pub authorize : Request → Exec Response Response
    authorize r = do
      found ← or_server_error (Tenants.find_by_code env r.tenant_code)
      tenant ← or_raise found not_found
      client ← check_client tenant r
      check_request client r
      session ← current_session tenant r
      session_id ← require_session session r
      issue_code tenant client session_id r

    unfoldable pub handle : Request → World → Response × World
    handle r = respond (authorize r)
