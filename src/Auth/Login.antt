-- ===== src/Auth/Login.antt =====
-- login.go: POST /internal/login.
use oidc_demo.Base.{String, pos, true, ◌||◌, [], ◌∷◌, str_eq}
use oidc_demo.Model.{User, LoginOutput}
use oidc_demo.World.{Env, World, Exec, Error, map_err, or_raise, raise_if, pure, ◌>>=◌, ◌>>◌}
use oidc_demo.Http.{
  Request, text_field, Response, Value, text, user, json, error, object, Cookie, server_error,
  respond,
}
use oidc_demo.Oidc.Config.{Config}
use oidc_demo.Auth.Service.{login}

unfoldable pub login_error : Error → Response
login_error Error.invalid_credentials = json 401 (error "invalid_credentials" "")
login_error e = server_error

abbrev pub user_value : Env → User → Value
user_value env u = user (env.uuid_string u.id) u.name u.email

abbrev session_cookie : Config → String → Cookie
session_cookie config value = record {
  name = "op_session";
  value = value;
  path = "/";
  http_only = true;
  secure = config.is_secure;
  same_site = "Lax";
  max_age = pos 0;
}

module _ (env : Env) (config : Config) where
  unfoldable pub login_response : LoginOutput → Response
  login_response output = record {
    status = 200;
    headers = [];
    cookies = session_cookie config (env.uuid_string output.session_id) ∷ [];
    body = object (
        ("session_id", text (env.uuid_string output.session_id))
        ∷ ("user", user_value env output.user)
        ∷ []);
  }

  unfoldable pub log_in : Request → Exec Response Response
  log_in r = do
    fields ← or_raise r.bind (json 400 (error "invalid_request" ""))
    raise_if
        (str_eq (text_field fields "tenant_code") ""
          || str_eq (text_field fields "login_id") ""
          || str_eq (text_field fields "password") "")
        (json 400 (error "invalid_request" "tenant_code, login_id, and password are required"))
    output ← map_err login_error (
        login env (record {
          tenant_code = text_field fields "tenant_code";
          login_id = text_field fields "login_id";
          password = text_field fields "password";
          ip_address = r.real_ip;
          user_agent = r.user_agent;
        }))
    pure (login_response output)

  unfoldable pub handle : Request → World → Response × World
  handle r = respond (log_in r)
