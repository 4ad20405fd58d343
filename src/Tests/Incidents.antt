-- ===== src/Tests/Incidents.antt =====
-- Incidents, revoked tokens, redirects and the sealing of keys.
use oidc_demo.Base
use oidc_demo.Base.{
  ℕ, String, true, false, ◌≡◌, ◌≢◌, ◌==◌, refl, Option, some, none, List, [], ◌∷◌, str_eq,
  strip_prefix, is_some,
}
use oidc_demo.Model
use oidc_demo.Model.{
  has_grant_type, is_used, Session, AccessTokenResult, User, LoginInput, LoginOutput, SignKey,
}
use oidc_demo.Model.Time
use oidc_demo.World as Act
use oidc_demo.World.{World, ok, err, invalid_grant}
use oidc_demo.Http
use oidc_demo.Http.{TokenResponse, redirect}
use oidc_demo.Crypto
use oidc_demo.Crypto.{encrypt, decrypt}
use oidc_demo.Crypto.RoundTrip.{decrypt-encrypt}
use oidc_demo.Jwt.Keys
use oidc_demo.Jwt.Tokens
use oidc_demo.Jwt.Tokens.{sha256_hex, validate_access_token}
use oidc_demo.Store.Tenants
use oidc_demo.Store.AdminSessions
use oidc_demo.Management.AdminAuth
use oidc_demo.Management.AdminService
use oidc_demo.Store.Clients
use oidc_demo.Store.Sessions
use oidc_demo.Store.AuthCodes
use oidc_demo.Store.AccessTokens
use oidc_demo.Store.RefreshTokens
use oidc_demo.Store.RefreshTokens.{Loaded}
use oidc_demo.Store.SignKeys
use oidc_demo.Auth.Service
use oidc_demo.Oidc.Authorize
use oidc_demo.Oidc.RedirectSafety.{IsSafe}
use oidc_demo.Management.Incident
use oidc_demo.Management.Ended.{Ended}
use oidc_demo.Server.Routes
use oidc_demo.Server.Routes.{Route, ManagementRoute, management, serve, stay, then}
use oidc_demo.Server.Reach.{code_is_used, holds, marks_stay}
use oidc_demo.Server.Redirects.{authorize-IsSafe}
use oidc_demo.Server.Revocation.{revoked_token_is_refused}
use oidc_demo.Server.Incident.{revoke_tenant_is_exact, revoke_user_is_exact}
use oidc_demo.Tests.InMemory.{in_memory-GormLaws}
use oidc_demo.Tests.Example.{env, config, start, alice_access, code_request}
use oidc_demo.Tests.Runs.{
  used_start, incident_request, incident_fields, authorize_request, access_text, userinfo_request,
}
use oidc_demo.Tests.Cipher.{cipher_env, cipher_env-CipherLaws}

tenant_revoked :
    (serve env config (management ManagementRoute.revoke_tenant) incident_request start).0.status
    ≡ 200
unfolding Routes.serve Routes.manage AdminAuth.require_admin AdminAuth.admit
    AdminService.validate_session AdminSessions.find_by_id Model.admin_session_is_valid
    Incident.revoke_tenant Incident.revoke_user Incident.revoke_each Sessions.revoke_by_tenant_id
    Sessions.revoke_by_user_id Sessions.revoke_where AccessTokens.revoke_by_tenant_id
    AccessTokens.revoke_by_user_id AccessTokens.revoke_where RefreshTokens.revoke_by_tenant_id
    RefreshTokens.revoke_by_user_id RefreshTokens.revoke_where Act.pure Act.raise Act.raise_if
    Act.or_raise Act.lift Act.ignore Act.map_err Act.time_now Act.rand_read Act.new_uuid
    Act.jwt_parse Act.first Act.find Act.first_desc Act.find_desc Act.updates Act.create Act.◌>>=◌
    Act.attempt Http.respond
tenant_revoked = refl

user_revoked :
    (serve env config (management ManagementRoute.revoke_user) incident_request start).0.status
    ≡ 200
unfolding Routes.serve Routes.manage AdminAuth.require_admin AdminAuth.admit
    AdminService.validate_session AdminSessions.find_by_id Model.admin_session_is_valid
    Incident.revoke_tenant Incident.revoke_user Incident.revoke_each Sessions.revoke_by_tenant_id
    Sessions.revoke_by_user_id Sessions.revoke_where AccessTokens.revoke_by_tenant_id
    AccessTokens.revoke_by_user_id AccessTokens.revoke_where RefreshTokens.revoke_by_tenant_id
    RefreshTokens.revoke_by_user_id RefreshTokens.revoke_where Act.pure Act.raise Act.raise_if
    Act.or_raise Act.lift Act.ignore Act.map_err Act.time_now Act.rand_read Act.new_uuid
    Act.jwt_parse Act.first Act.find Act.first_desc Act.find_desc Act.updates Act.create Act.◌>>=◌
    Act.attempt Http.respond
user_revoked = refl

revoke_tenant_is_exact_example :
    Ended
      (λ s. s.tenant_id == 1)
      start
      (serve env config (management ManagementRoute.revoke_tenant) incident_request start).1
revoke_tenant_is_exact_example =
    revoke_tenant_is_exact env config in_memory-GormLaws incident_request incident_fields 1 start
      refl refl tenant_revoked

revoke_user_is_exact_example :
    Ended
      (λ s. s.user_id == 3)
      start
      (serve env config (management ManagementRoute.revoke_user) incident_request start).1
revoke_user_is_exact_example =
    revoke_user_is_exact env config in_memory-GormLaws incident_request incident_fields 3 start refl
      refl user_revoked

abbrev code_params : List (String × String)
code_params =
    ("code", "1a1a1a1a1a1a1a1a1a1a1a1a1a1a1a1a1a1a1a1a1a1a1a1a1a1a1a1a1a1a1a1a")
    ∷ ("state", "xyz")
    ∷ []

authorizes :
    (serve env config Route.authorize authorize_request start).0.body
    ≡ redirect "https://shop/cb" code_params
unfolding Routes.serve Authorize.handle Authorize.authorize Tenants.find_by_code
    Authorize.check_client Clients.find_by_client_id_with_redirect_uris
    Clients.preload_redirect_uris Authorize.is_registered_redirect_uri Authorize.check_request
    Base.split Base.contains Model.has_grant_type Authorize.current_session Authorize.session_at
    Service.validate_session Sessions.find_by_id Model.is_valid Authorize.require_session
    Authorize.issue_code AuthCodes.create_code Time.duration Act.pure Act.raise Act.raise_if
    Act.or_raise Act.lift Act.ignore Act.map_err Act.time_now Act.rand_read Act.new_uuid
    Act.jwt_parse Act.first Act.find Act.first_desc Act.find_desc Act.updates Act.create Act.◌>>=◌
    Act.attempt Http.respond
authorizes = refl

authorize-IsSafe_example : IsSafe config authorize_request start "https://shop/cb"
authorize-IsSafe_example =
    authorize-IsSafe env config in_memory-GormLaws authorize_request start "https://shop/cb"
      code_params authorizes

abbrev revoked_access : World
revoked_access = record start { access_tokens = record alice_access { revoked_at = some 1 } ∷ [] }

abbrev userinfo_result : AccessTokenResult
userinfo_result = record {
  jti = "j8";
  subject = 3;
  client_id = "";
  scope = "openid profile";
  session_id = 6;
}

token_is_valid :
    validate_access_token env config.enc_key access_text revoked_access
    ≡ (ok userinfo_result, (validate_access_token env config.enc_key access_text revoked_access).1)
unfolding Tokens.validate_access_token Keys.get_jwk_set SignKeys.find_all_active Keys.jwk_set
    Keys.to_jwk Base.split Act.pure Act.raise Act.raise_if Act.or_raise Act.lift Act.ignore
    Act.map_err Act.time_now Act.rand_read Act.new_uuid Act.jwt_parse Act.first Act.find
    Act.first_desc Act.find_desc Act.updates Act.create Act.◌>>=◌ Act.attempt Http.respond
token_is_valid = refl

bearer_token : strip_prefix "Bearer " userinfo_request.authorization ≡ some access_text
unfolding strip_prefix
bearer_token = refl

revoked_token_is_refused_example :
    (serve env config Route.userinfo userinfo_request revoked_access).0.status ≡ 401
revoked_token_is_refused_example =
    revoked_token_is_refused env config in_memory-GormLaws "j8" access_text userinfo_request
      userinfo_result revoked_access revoked_access _ refl stay bearer_token token_is_valid refl

already_used : holds (code_is_used "c0de") used_start ≡ true
unfolding holds
already_used = refl

marks_stay_example :
    holds (code_is_used "c0de") (serve env config Route.token code_request used_start).1 ≡ true
marks_stay_example =
    marks_stay env config in_memory-GormLaws (code_is_used "c0de") used_start
      (serve env config Route.token code_request used_start).1 (then stay Route.token code_request)
      already_used

abbrev cipher_key : List ℕ
cipher_key = config.enc_key

abbrev cipher_text : String
cipher_text = cipher_env.base64_encode (20 ∷ 20 ∷ 65 ∷ 66 ∷ [])

encrypts :
    encrypt cipher_env (65 ∷ 66 ∷ []) cipher_key start
    ≡ (ok cipher_text, (encrypt cipher_env (65 ∷ 66 ∷ []) cipher_key start).1)
unfolding Crypto.encrypt Act.pure Act.raise Act.raise_if Act.or_raise Act.lift Act.ignore
    Act.map_err Act.time_now Act.rand_read Act.new_uuid Act.jwt_parse Act.first Act.find
    Act.first_desc Act.find_desc Act.updates Act.create Act.◌>>=◌ Act.attempt Http.respond
encrypts = refl

decrypt-encrypt_example : decrypt cipher_env cipher_text cipher_key ≡ some (65 ∷ 66 ∷ [])
decrypt-encrypt_example =
    decrypt-encrypt cipher_env cipher_env-CipherLaws (65 ∷ 66 ∷ []) cipher_key cipher_text start _
      encrypts
