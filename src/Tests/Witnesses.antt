-- ===== src/Tests/Witnesses.antt =====
-- The grants of the token endpoint, from the state of the examples.
use oidc_demo.Base
use oidc_demo.Base.{
  ℕ, String, true, false, ◌≡◌, ◌≢◌, ◌==◌, refl, Option, some, none, List, [], ◌∷◌, str_eq,
  strip_prefix, is_some,
}
use oidc_demo.Crypto.Argon2id
use oidc_demo.Model
use oidc_demo.Model.{
  has_grant_type, is_used, Session, AccessTokenResult, User, LoginInput, LoginOutput, SignKey,
}
use oidc_demo.Model.Time
use oidc_demo.World as Act
use oidc_demo.World.{World, ok, err, invalid_grant}
use oidc_demo.Http
use oidc_demo.Http.{TokenResponse, redirect}
use oidc_demo.Crypto
use oidc_demo.Crypto.{encrypt, decrypt}
use oidc_demo.Jwt.Keys
use oidc_demo.Jwt.Tokens
use oidc_demo.Jwt.Tokens.{sha256_hex, validate_access_token}
use oidc_demo.Store.Tenants
use oidc_demo.Store.Clients
use oidc_demo.Store.AuthCodes
use oidc_demo.Store.AccessTokens
use oidc_demo.Store.RefreshTokens
use oidc_demo.Store.RefreshTokens.{Loaded}
use oidc_demo.Store.IdTokens
use oidc_demo.Store.SignKeys
use oidc_demo.Oidc.Client
use oidc_demo.Oidc.Client.{authenticate_client}
use oidc_demo.Oidc.Issue
use oidc_demo.Oidc.AuthCode
use oidc_demo.Oidc.AuthCode.{AuthCodeGrantInput, handle_auth_code_grant_logic}
use oidc_demo.Oidc.Refresh
use oidc_demo.Oidc.Refresh.{RefreshTokenGrantInput, handle_refresh_token_grant_logic}
use oidc_demo.Oidc.Token
use oidc_demo.Oidc.CodeGrant.{Redeems, code_grant_is_sound}
use oidc_demo.Oidc.RefreshGrant.{Rotates, refresh_grant_is_sound}
use oidc_demo.Server.Routes
use oidc_demo.Server.Routes.{Route, ManagementRoute, management, serve, stay, then}
use oidc_demo.Server.Replay.{code_redeemed_once, refresh_token_rotated_once}
use oidc_demo.Tests.InMemory.{in_memory-GormLaws}
use oidc_demo.Tests.Example.{env, config, start, code_request, refresh_request}
use oidc_demo.Tests.Runs.{code_input, wide_input, after_code, after_refresh}

code_succeeds : (serve env config Route.token code_request start).0.status ≡ 200
unfolding Routes.serve Token.handle Token.grant Token.handle_auth_code_grant
    Client.extract_client_credentials Client.authenticate_client Clients.find_by_client_id
    AuthCode.handle_auth_code_grant_logic AuthCodes.find_by_code AuthCodes.preload
    AuthCode.check_auth_code AuthCode.check_unused AuthCode.pkce_fails Crypto.verify_code_challenge
    Model.is_used Model.is_expired AuthCode.redeem AuthCodes.mark_as_used AuthCode.issue_tokens
    Issue.issue_id_token Tokens.sign_id_token Tokens.id_token_jwt Tokens.compute_at_hash
    IdTokens.create_token AuthCode.refresh_token_for Issue.issue_access_token Issue.issuer
    Tokens.sign_access_token Keys.get_active_signing_key SignKeys.find_active Crypto.decrypt
    Tokens.access_token_jwt AccessTokens.create_token Issue.issue_refresh_token
    Tokens.generate_refresh_token RefreshTokens.create_token Tokens.sha256_hex Time.duration
    Tenants.find_by_id Model.has_grant_type Act.pure Act.raise Act.raise_if Act.or_raise Act.lift
    Act.ignore Act.map_err Act.time_now Act.rand_read Act.new_uuid Act.jwt_parse Act.first Act.find
    Act.first_desc Act.find_desc Act.updates Act.create Act.◌>>=◌ Act.attempt Http.respond
    Argon2id.verify_password Base.split
code_succeeds = refl

code_redeemed_once_example : (serve env config Route.token code_request after_code).0.status ≢ 200
code_redeemed_once_example =
    code_redeemed_once env config in_memory-GormLaws code_request code_request start after_code refl
      refl refl code_succeeds stay

refresh_succeeds : (serve env config Route.token refresh_request start).0.status ≡ 200
unfolding Routes.serve Token.handle Token.grant Token.handle_refresh_token_grant
    Client.extract_client_credentials Client.authenticate_client Clients.find_by_client_id
    Refresh.handle_refresh_token_grant_logic RefreshTokens.find_by_token_hash RefreshTokens.preload
    Refresh.check_refresh_token Refresh.check_live Refresh.check_session Refresh.rotate
    Refresh.granted_scope RefreshTokens.revoke RefreshTokens.revoke_where AccessTokens.revoke
    AccessTokens.revoke_where Refresh.issue_rotated Issue.issue_access_token Issue.issuer
    Tokens.sign_access_token Keys.get_active_signing_key SignKeys.find_active Crypto.decrypt
    Tokens.access_token_jwt AccessTokens.create_token Issue.issue_refresh_token
    Tokens.generate_refresh_token RefreshTokens.create_token Tokens.sha256_hex Time.duration
    Tenants.find_by_id Model.has_grant_type Act.pure Act.raise Act.raise_if Act.or_raise Act.lift
    Act.ignore Act.map_err Act.time_now Act.rand_read Act.new_uuid Act.jwt_parse Act.first Act.find
    Act.first_desc Act.find_desc Act.updates Act.create Act.◌>>=◌ Act.attempt Http.respond
    Argon2id.verify_password Base.split
refresh_succeeds = refl

refresh_token_rotated_once_example :
    (serve env config Route.token refresh_request after_refresh).0.status ≢ 200
refresh_token_rotated_once_example =
    refresh_token_rotated_once env config in_memory-GormLaws refresh_request refresh_request start
      after_refresh refl refl refl refresh_succeeds stay

abbrev code_response : TokenResponse
code_response = record {
  access_token = "k1\n03\n1e\nopenid profile\n06";
  token_type = "Bearer";
  expires_in = 3600;
  refresh_token = "2626262626262626262626262626262626262626262626262626262626262626";
  id_token = "k1\n03\n23\n\n";
  scope = "openid profile";
}

abbrev wide_response : TokenResponse
wide_response = record {
  access_token = "k1\n03\n22\nopenid admin\n06";
  token_type = "Bearer";
  expires_in = 3600;
  refresh_token = "2525252525252525252525252525252525252525252525252525252525252525";
  id_token = "";
  scope = "openid admin";
}

abbrev code_end : World
code_end = (handle_auth_code_grant_logic env config code_input start).1

abbrev wide_end : World
wide_end = (handle_refresh_token_grant_logic env config wide_input start).1

code_logic_runs :
    handle_auth_code_grant_logic env config code_input start ≡ (ok code_response, code_end)
unfolding Client.extract_client_credentials Client.authenticate_client Clients.find_by_client_id
    AuthCode.handle_auth_code_grant_logic AuthCodes.find_by_code AuthCodes.preload
    AuthCode.check_auth_code AuthCode.check_unused AuthCode.pkce_fails Crypto.verify_code_challenge
    Model.is_used Model.is_expired AuthCode.redeem AuthCodes.mark_as_used AuthCode.issue_tokens
    Issue.issue_id_token Tokens.sign_id_token Tokens.id_token_jwt Tokens.compute_at_hash
    IdTokens.create_token AuthCode.refresh_token_for Issue.issue_access_token Issue.issuer
    Tokens.sign_access_token Keys.get_active_signing_key SignKeys.find_active Crypto.decrypt
    Tokens.access_token_jwt AccessTokens.create_token Issue.issue_refresh_token
    Tokens.generate_refresh_token RefreshTokens.create_token Tokens.sha256_hex Time.duration
    Tenants.find_by_id Model.has_grant_type Act.pure Act.raise Act.raise_if Act.or_raise Act.lift
    Act.ignore Act.map_err Act.time_now Act.rand_read Act.new_uuid Act.jwt_parse Act.first Act.find
    Act.first_desc Act.find_desc Act.updates Act.create Act.◌>>=◌ Act.attempt Http.respond
    Argon2id.verify_password Base.split
code_logic_runs = refl

code_grant_is_sound_example : Redeems env config code_input start code_response code_end
code_grant_is_sound_example =
    code_grant_is_sound env in_memory-GormLaws config code_input start code_response code_end
      code_logic_runs

wide_logic_runs :
    handle_refresh_token_grant_logic env config wide_input start ≡ (ok wide_response, wide_end)
unfolding Client.extract_client_credentials Client.authenticate_client Clients.find_by_client_id
    Refresh.handle_refresh_token_grant_logic RefreshTokens.find_by_token_hash RefreshTokens.preload
    Refresh.check_refresh_token Refresh.check_live Refresh.check_session Refresh.rotate
    Refresh.granted_scope RefreshTokens.revoke RefreshTokens.revoke_where AccessTokens.revoke
    AccessTokens.revoke_where Refresh.issue_rotated Issue.issue_access_token Issue.issuer
    Tokens.sign_access_token Keys.get_active_signing_key SignKeys.find_active Crypto.decrypt
    Tokens.access_token_jwt AccessTokens.create_token Issue.issue_refresh_token
    Tokens.generate_refresh_token RefreshTokens.create_token Tokens.sha256_hex Time.duration
    Tenants.find_by_id Model.has_grant_type Act.pure Act.raise Act.raise_if Act.or_raise Act.lift
    Act.ignore Act.map_err Act.time_now Act.rand_read Act.new_uuid Act.jwt_parse Act.first Act.find
    Act.first_desc Act.find_desc Act.updates Act.create Act.◌>>=◌ Act.attempt Http.respond
    Argon2id.verify_password Base.split
wide_logic_runs = refl

refresh_grant_is_sound_example : Rotates env config wide_input start wide_response wide_end
refresh_grant_is_sound_example =
    refresh_grant_is_sound env in_memory-GormLaws config wide_input start wide_response wide_end
      wide_logic_runs
