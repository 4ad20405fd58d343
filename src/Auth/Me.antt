-- ===== src/Auth/Me.antt =====
-- me.go: GET /internal/me.
use oidc_demo.Base.{[], ◌∷◌}
use oidc_demo.Model.{User, Session}
use oidc_demo.World.{Env, World, Exec, Error, map_err, or_raise, pure, ◌>>=◌}
use oidc_demo.Http.{
  Request, Response, text, json, error, object, server_error, or_server_error, respond,
}
use oidc_demo.Store.Users
use oidc_demo.Auth.Service.{validate_session}
use oidc_demo.Auth.Login.{user_value}

unfoldable pub session_error : Error → Response
session_error Error.session_not_found = json 401 (error "session_expired" "")
session_error Error.session_expired = json 401 (error "session_expired" "")
session_error e = server_error

module _ (env : Env) where
  unfoldable pub me_response : Session → User → Response
  me_response session user = json 200 (
      object (
        ("session_id", text (env.uuid_string session.id))
        ∷ ("tenant_id", text (env.uuid_string session.tenant_id))
        ∷ ("user", user_value env user)
        ∷ []))

  unfoldable pub me : Request → Exec Response Response
  me r = do
    cookie ← or_raise (r.cookie "op_session") (json 401 (error "no_session" ""))
    session_id ← or_raise (env.uuid_parse cookie) (json 401 (error "invalid_session" ""))
    session ← map_err session_error (validate_session env session_id)
    found ← or_server_error (Users.find_by_id env session.user_id)
    user ← or_raise found server_error
    pure (me_response session user)

  unfoldable pub handle : Request → World → Response × World
  handle r = respond (me r)
