-- ===== src/Tests/Theft.antt =====
-- Codes and refresh tokens that are presented twice.
use oidc_demo.Base
use oidc_demo.Base.{
  ℕ, String, true, false, ◌≡◌, ◌≢◌, ◌==◌, refl, Option, some, none, List, [], ◌∷◌, str_eq,
  strip_prefix, is_some,
}
use oidc_demo.Crypto.Argon2id
use oidc_demo.Model
use oidc_demo.Model.{
  has_grant_type, is_used, Session, AccessTokenResult, User, LoginInput, LoginOutput, SignKey,
}
use oidc_demo.Model.Time
use oidc_demo.World as Act
use oidc_demo.World.{World, ok, err, invalid_grant}
use oidc_demo.Http
use oidc_demo.Http.{TokenResponse, redirect}
use oidc_demo.Crypto
use oidc_demo.Crypto.{encrypt, decrypt}
use oidc_demo.Jwt.Keys
use oidc_demo.Jwt.Tokens
use oidc_demo.Jwt.Tokens.{sha256_hex, validate_access_token}
use oidc_demo.Store.Tenants
use oidc_demo.Store.Clients
use oidc_demo.Store.AuthCodes
use oidc_demo.Store.AccessTokens
use oidc_demo.Store.RefreshTokens
use oidc_demo.Store.RefreshTokens.{Loaded}
use oidc_demo.Store.IdTokens
use oidc_demo.Store.SignKeys
use oidc_demo.Oidc.Client
use oidc_demo.Oidc.Client.{authenticate_client}
use oidc_demo.Oidc.Issue
use oidc_demo.Oidc.AuthCode
use oidc_demo.Oidc.AuthCode.{AuthCodeGrantInput, handle_auth_code_grant_logic}
use oidc_demo.Oidc.Refresh
use oidc_demo.Oidc.Refresh.{RefreshTokenGrantInput, handle_refresh_token_grant_logic}
use oidc_demo.Oidc.Reuse.{
  has_live_access, has_live_refresh, reused_refresh_token_ends_session, replayed_code_ends_session,
}
use oidc_demo.Tests.InMemory.{in_memory-GormLaws, in_memory-UpdatesSucceed}
use oidc_demo.Tests.Example.{
  env, config, shop, alice_session, alice_access, alice_refresh, alice_code,
}
use oidc_demo.Tests.Runs.{code_input, wide_input, revoked_start, used_start}

abbrev client_at : World → World
client_at w = (authenticate_client env "shop" "s3cret" w).1

authenticated : (w : World) → w ≡ w
authenticated w = refl

reused_authenticates :
    authenticate_client env "shop" "s3cret" revoked_start ≡ (ok shop, client_at revoked_start)
unfolding Client.extract_client_credentials Client.authenticate_client Clients.find_by_client_id
    AuthCode.handle_auth_code_grant_logic AuthCodes.find_by_code AuthCodes.preload
    AuthCode.check_auth_code AuthCode.check_unused AuthCode.pkce_fails Crypto.verify_code_challenge
    Model.is_used Model.is_expired AuthCode.redeem AuthCodes.mark_as_used AuthCode.issue_tokens
    Issue.issue_id_token Tokens.sign_id_token Tokens.id_token_jwt Tokens.compute_at_hash
    IdTokens.create_token AuthCode.refresh_token_for Issue.issue_access_token Issue.issuer
    Tokens.sign_access_token Keys.get_active_signing_key SignKeys.find_active Crypto.decrypt
    Tokens.access_token_jwt AccessTokens.create_token Issue.issue_refresh_token
    Tokens.generate_refresh_token RefreshTokens.create_token Tokens.sha256_hex Time.duration
    Tenants.find_by_id Model.has_grant_type Act.pure Act.raise Act.raise_if Act.or_raise Act.lift
    Act.ignore Act.map_err Act.time_now Act.rand_read Act.new_uuid Act.jwt_parse Act.first Act.find
    Act.first_desc Act.find_desc Act.updates Act.create Act.◌>>=◌ Act.attempt Http.respond
    Argon2id.verify_password Base.split
reused_authenticates = refl

used_authenticates :
    authenticate_client env "shop" "s3cret" used_start ≡ (ok shop, client_at used_start)
unfolding Client.extract_client_credentials Client.authenticate_client Clients.find_by_client_id
    AuthCode.handle_auth_code_grant_logic AuthCodes.find_by_code AuthCodes.preload
    AuthCode.check_auth_code AuthCode.check_unused AuthCode.pkce_fails Crypto.verify_code_challenge
    Model.is_used Model.is_expired AuthCode.redeem AuthCodes.mark_as_used AuthCode.issue_tokens
    Issue.issue_id_token Tokens.sign_id_token Tokens.id_token_jwt Tokens.compute_at_hash
    IdTokens.create_token AuthCode.refresh_token_for Issue.issue_access_token Issue.issuer
    Tokens.sign_access_token Keys.get_active_signing_key SignKeys.find_active Crypto.decrypt
    Tokens.access_token_jwt AccessTokens.create_token Issue.issue_refresh_token
    Tokens.generate_refresh_token RefreshTokens.create_token Tokens.sha256_hex Time.duration
    Tenants.find_by_id Model.has_grant_type Act.pure Act.raise Act.raise_if Act.or_raise Act.lift
    Act.ignore Act.map_err Act.time_now Act.rand_read Act.new_uuid Act.jwt_parse Act.first Act.find
    Act.first_desc Act.find_desc Act.updates Act.create Act.◌>>=◌ Act.attempt Http.respond
    Argon2id.verify_password Base.split
used_authenticates = refl

abbrev revoked_loaded : Loaded
revoked_loaded = record {
  token = record alice_refresh { revoked_at = some 1 };
  session = alice_session;
  access_token = alice_access;
}

abbrev revoked_found : World
revoked_found = (RefreshTokens.find_by_token_hash env "7236" (client_at revoked_start)).1

finds_revoked :
    RefreshTokens.find_by_token_hash env (sha256_hex env "r6") (client_at revoked_start)
    ≡ (ok (some revoked_loaded), revoked_found)
unfolding Client.extract_client_credentials Client.authenticate_client Clients.find_by_client_id
    Refresh.handle_refresh_token_grant_logic RefreshTokens.find_by_token_hash RefreshTokens.preload
    Refresh.check_refresh_token Refresh.check_live Refresh.check_session Refresh.rotate
    Refresh.granted_scope RefreshTokens.revoke RefreshTokens.revoke_where AccessTokens.revoke
    AccessTokens.revoke_where Refresh.issue_rotated Issue.issue_access_token Issue.issuer
    Tokens.sign_access_token Keys.get_active_signing_key SignKeys.find_active Crypto.decrypt
    Tokens.access_token_jwt AccessTokens.create_token Issue.issue_refresh_token
    Tokens.generate_refresh_token RefreshTokens.create_token Tokens.sha256_hex Time.duration
    Tenants.find_by_id Model.has_grant_type Act.pure Act.raise Act.raise_if Act.or_raise Act.lift
    Act.ignore Act.map_err Act.time_now Act.rand_read Act.new_uuid Act.jwt_parse Act.first Act.find
    Act.first_desc Act.find_desc Act.updates Act.create Act.◌>>=◌ Act.attempt Http.respond
    Argon2id.verify_password Base.split
finds_revoked = refl

shop_may_refresh : has_grant_type shop "refresh_token" ≡ true
unfolding has_grant_type
shop_may_refresh = refl

reused_refresh_token_ends_session_example :
    (v : World) × (handle_refresh_token_grant_logic env config wide_input revoked_start
      ≡ (err invalid_grant, v))
    × (has_live_access 6 v ≡ false)
    × (has_live_refresh 6 v ≡ false)
reused_refresh_token_ends_session_example =
    reused_refresh_token_ends_session env in_memory-GormLaws in_memory-UpdatesSucceed config
      wide_input shop revoked_loaded revoked_start (client_at revoked_start) revoked_found
      reused_authenticates shop_may_refresh finds_revoked refl

abbrev used_found : World
used_found = (AuthCodes.find_by_code env "c0de" (client_at used_start)).1

finds_used :
    AuthCodes.find_by_code env "c0de" (client_at used_start)
    ≡ (ok (some (record alice_code { used_at = some 1 }, alice_session)), used_found)
unfolding Client.extract_client_credentials Client.authenticate_client Clients.find_by_client_id
    AuthCode.handle_auth_code_grant_logic AuthCodes.find_by_code AuthCodes.preload
    AuthCode.check_auth_code AuthCode.check_unused AuthCode.pkce_fails Crypto.verify_code_challenge
    Model.is_used Model.is_expired AuthCode.redeem AuthCodes.mark_as_used AuthCode.issue_tokens
    Issue.issue_id_token Tokens.sign_id_token Tokens.id_token_jwt Tokens.compute_at_hash
    IdTokens.create_token AuthCode.refresh_token_for Issue.issue_access_token Issue.issuer
    Tokens.sign_access_token Keys.get_active_signing_key SignKeys.find_active Crypto.decrypt
    Tokens.access_token_jwt AccessTokens.create_token Issue.issue_refresh_token
    Tokens.generate_refresh_token RefreshTokens.create_token Tokens.sha256_hex Time.duration
    Tenants.find_by_id Model.has_grant_type Act.pure Act.raise Act.raise_if Act.or_raise Act.lift
    Act.ignore Act.map_err Act.time_now Act.rand_read Act.new_uuid Act.jwt_parse Act.first Act.find
    Act.first_desc Act.find_desc Act.updates Act.create Act.◌>>=◌ Act.attempt Http.respond
    Argon2id.verify_password Base.split
finds_used = refl

it_is_used : is_used (record alice_code { used_at = some 1 }) ≡ true
unfolding is_used
it_is_used = refl

replayed_code_ends_session_example :
    (v : World) × (handle_auth_code_grant_logic env config code_input used_start
      ≡ (err invalid_grant, v))
    × (has_live_access 6 v ≡ false)
    × (has_live_refresh 6 v ≡ false)
replayed_code_ends_session_example =
    replayed_code_ends_session env in_memory-GormLaws in_memory-UpdatesSucceed config code_input
      shop (record alice_code { used_at = some 1 }) alice_session used_start (client_at used_start)
      used_found used_authenticates finds_used it_is_used
