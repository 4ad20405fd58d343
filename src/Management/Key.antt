-- ===== src/Management/Key.antt =====
-- key.go: the signing keys.
use oidc_demo.Base.{String, Option, none, some, List, [], ◌∷◌, map, length, leb, not}
use oidc_demo.Model.{Time, SignKey}
use oidc_demo.World.{Env, Exec, or_raise, raise_if, pure, ◌>>=◌, ◌>>◌}
use oidc_demo.Http.{Request, Response, Value, text, flag, json, empty, object, objects}
use oidc_demo.Jwt.Keys.{rotate_key}
use oidc_demo.Management.Errors.{bad_request, not_found, or_server_error}
use oidc_demo.Store.SignKeys
use oidc_demo.Oidc.Config.{Config}

module _ (env : Env) where
  abbrev rotated_value : Option Time → List (String × Value)
  rotated_value none = []
  rotated_value (some t) = ("rotated_at", text (env.format_rfc3339 t)) ∷ []

  unfoldable pub key_response : SignKey → Option Time → List (String × Value)
  key_response k rotated_at =
      ("kid", text k.kid)
      ∷ ("algorithm", text k.algorithm)
      ∷ ("active", flag k.active)
      ∷ ("created_at", text (env.format_rfc3339 k.created_at))
      ∷ rotated_value rotated_at

  unfoldable pub list_keys : Exec Response Response
  list_keys = do
    keys ← or_server_error (SignKeys.find_all env)
    pure (json 200 (objects (map (λ k. key_response k k.rotated_at) keys)))

  -- The last active key stays.
  unfoldable pub deactivate_key : String → Exec Response Response
  deactivate_key kid = do
    found ← or_server_error (SignKeys.find_by_kid env kid)
    key ← or_raise found (not_found "key not found")
    raise_if (not key.active) (bad_request "key is already inactive")
    active_keys ← or_server_error (SignKeys.find_all_active env)
    raise_if (leb (length active_keys) 1) (bad_request "cannot deactivate the last active key")
    or_server_error (SignKeys.deactivate env kid)
    pure (json 204 empty)

  unfoldable pub handle_deactivate : Request → Exec Response Response
  unfolding deactivate_key
  handle_deactivate r = deactivate_key (r.param "kid")

  module _ (config : Config) where
    unfoldable pub rotate : Exec Response Response
    rotate = do
      key ← or_server_error (rotate_key env config.enc_key)
      pure (json 201 (object (key_response key none)))
