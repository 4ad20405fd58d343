-- ===== src/Management/AdminAuth.antt =====
-- auth_handler.go and middleware.go: the administrators' login, and what stands before the other
-- routes of the management API.
use oidc_demo.Base.{ℕ, String, true, pos, negsuc, Option, none, some, ◌||◌, [], ◌∷◌, str_eq}
use oidc_demo.Model.{AdminUser, AdminSession}
use oidc_demo.World.{Env, Exec, Error, map_err, ignore, or_raise, raise_if, pure, ◌>>=◌, ◌>>◌}
use oidc_demo.Http.{Request, Response, Cookie, admin_user, text_field, json, empty, object}
use oidc_demo.Oidc.Config.{Config}
use oidc_demo.Management.Errors.{error_json, bad_request, server_error}
use oidc_demo.Management.AdminService
use oidc_demo.Store.AdminUsers

abbrev pub admin_cookie_name : String
admin_cookie_name = "op_admin_session"

abbrev pub unauthorized : String → Response
unauthorized = error_json 401 "unauthorized"

unfoldable pub login_error : Error → Response
login_error Error.admin_invalid_credentials =
    error_json 401 "invalid_credentials" "login ID or password is incorrect"
login_error e = server_error

abbrev pub set_cookie : Config → String → Cookie
set_cookie config value = record {
  name = admin_cookie_name;
  value = value;
  path = "/";
  http_only = true;
  secure = config.is_secure;
  same_site = "Lax";
  max_age = pos 0;
}

abbrev clear_cookie : Config → Cookie
clear_cookie config = record (set_cookie config "") { max_age = negsuc 0 }

abbrev with_cookie : Cookie → Response → Response
with_cookie c r = record r { cookies = c ∷ r.cookies }

module _ (env : Env) where
  abbrev user_response : AdminUser → Response
  user_response u =
      json 200 (object (("user", admin_user (env.uuid_string u.id) u.login_id u.name) ∷ []))

  unfoldable pub handle_login : Config → Request → Exec Response Response
  handle_login config r = do
    fields ← or_raise r.bind (bad_request "invalid request body")
    raise_if (str_eq (text_field fields "login_id") "" || str_eq (text_field fields "password") "")
        (bad_request "login_id and password are required")
    output ← map_err login_error (
        AdminService.login env (text_field fields "login_id") (text_field fields "password")
          r.real_ip r.user_agent)
    pure (with_cookie (set_cookie config (env.uuid_string output.0.id)) (user_response output.1))

  unfoldable pub handle_me : Request → Exec Response Response
  handle_me r = do
    cookie ← or_raise (r.cookie admin_cookie_name) (unauthorized "no session")
    session_id ← or_raise (env.uuid_parse cookie) (unauthorized "invalid session")
    session ←
        map_err (λ e. unauthorized "session expired or invalid")
          (AdminService.validate_session env session_id)
    found ←
        map_err (λ e. unauthorized "user not found")
          (AdminUsers.find_by_id env session.admin_user_id)
    user ← or_raise found (unauthorized "user not found")
    pure (user_response user)

  unfoldable pub revoke_parsed : Option ℕ → Exec Response Unit
  revoke_parsed none = pure tt
  revoke_parsed (some session_id) = ignore (AdminService.revoke_session env session_id)

  unfoldable pub revoke_cookie : Option String → Exec Response Unit
  unfolding revoke_parsed
  revoke_cookie none = pure tt
  revoke_cookie (some value) = revoke_parsed (env.uuid_parse value)

  unfoldable pub handle_logout : Config → Request → Exec Response Response
  unfolding revoke_cookie
  handle_logout config r = do
    revoke_cookie (r.cookie admin_cookie_name)
    pure (with_cookie (clear_cookie config) (json 204 empty))

  -- The middleware: a request without a session that is current ends here.
  unfoldable pub admit : Request → Exec Response AdminSession
  admit r = do
    cookie ← or_raise (r.cookie admin_cookie_name) (unauthorized "invalid or missing credentials")
    session_id ← or_raise (env.uuid_parse cookie) (unauthorized "invalid or missing credentials")
    map_err (λ e. unauthorized "invalid or missing credentials")
        (AdminService.validate_session env session_id)

  unfoldable pub require_admin : Request → Exec Response Response → Exec Response Response
  unfolding admit
  require_admin r next = do admit r; next
