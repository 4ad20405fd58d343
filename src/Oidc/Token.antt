-- ===== src/Oidc/Token.antt =====
-- token.go: POST /{tenant_code}/token.
use oidc_demo.Base.{ℕ, String, str_eq, if◌then◌else◌}
use oidc_demo.World.{Env, World, Exec, Error, map_err, raise_if, pure, raise, ◌>>=◌, ◌>>◌}
use oidc_demo.Http.{Request, Response, json, error, token, with_header, respond}
use oidc_demo.Oidc.Config.{Config}
use oidc_demo.Oidc.Client.{extract_client_credentials, missing}
use oidc_demo.Oidc.AuthCode.{handle_auth_code_grant_logic}
use oidc_demo.Oidc.Refresh.{handle_refresh_token_grant_logic}

unfoldable pub token_error : ℕ → String → String → Response
token_error status code description = json status (error code description)

-- The two switches over `errors.Is`.
unfoldable pub auth_code_error : Error → Response
unfolding token_error
auth_code_error Error.invalid_client = token_error 401 "invalid_client" ""
auth_code_error Error.invalid_grant = token_error 400 "invalid_grant" ""
auth_code_error e = token_error 500 "server_error" ""

unfoldable pub refresh_error : Error → Response
unfolding token_error
refresh_error Error.invalid_client = token_error 401 "invalid_client" ""
refresh_error Error.invalid_grant = token_error 400 "invalid_grant" ""
refresh_error Error.unsupported_grant_type = token_error 400 "unsupported_grant_type" ""
refresh_error e = token_error 500 "server_error" ""

abbrev no_store : Response → Response
no_store r = with_header "Cache-Control" "no-store" (with_header "Pragma" "no-cache" r)

module _ (env : Env) (config : Config) where
  unfoldable pub handle_auth_code_grant : Request → Exec Response Response
  handle_auth_code_grant r = do
    let credentials = extract_client_credentials r
    raise_if (missing credentials) (token_error 401 "invalid_client" "client credentials required")
    raise_if (str_eq (r.form_value "code") "")
        (token_error 400 "invalid_request" "code is required")
    response ← map_err auth_code_error (
        handle_auth_code_grant_logic env config (record {
          client_id = credentials.0;
          client_secret = credentials.1;
          code = r.form_value "code";
          redirect_uri = r.form_value "redirect_uri";
          code_verifier = r.form_value "code_verifier";
        }))
    pure (json 200 (token response))

  unfoldable pub handle_refresh_token_grant : Request → Exec Response Response
  handle_refresh_token_grant r = do
    let credentials = extract_client_credentials r
    raise_if (missing credentials) (token_error 401 "invalid_client" "client credentials required")
    raise_if (str_eq (r.form_value "refresh_token") "")
        (token_error 400 "invalid_request" "refresh_token is required")
    response ← map_err refresh_error (
        handle_refresh_token_grant_logic env config (record {
          client_id = credentials.0;
          client_secret = credentials.1;
          refresh_token = r.form_value "refresh_token";
          scope = r.form_value "scope";
        }))
    pure (json 200 (token response))

  -- The grant that `grant_type` names.
  unfoldable pub grant : Request → Exec Response Response
  grant r =
      if str_eq (r.form_value "grant_type") "authorization_code"
      then handle_auth_code_grant r
      else if str_eq (r.form_value "grant_type") "refresh_token"
      then handle_refresh_token_grant r
      else raise (token_error 400 "unsupported_grant_type" "")

  unfoldable pub handle : Request → World → Response × World
  handle r w = let (response, w') = respond (grant r) w in (no_store response, w')
