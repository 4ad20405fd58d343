-- ===== src/Management/RedirectUri.antt =====
-- redirect_uri.go: the addresses of a client; and validateRedirectURI of client.go.
use oidc_demo.Base.{
  String, Option, none, some, List, [], ◌∷◌, map, join, not, ◌||◌, ◌==◌, str_eq, if◌then◌else◌,
}
use oidc_demo.Model.{RedirectUri}
use oidc_demo.World.{Env, Exec, or_raise, raise_if, raise, pure, ◌>>=◌, ◌>>◌}
use oidc_demo.Http.{Request, Response, Value, text, text_field, json, empty, object, objects}
use oidc_demo.Management.Errors.{bad_request, not_found, or_server_error}
use oidc_demo.Store.Clients
use oidc_demo.Store.RedirectUris

-- `return badRequest(c, err.Error())` where there is an error.
unfoldable pub raise_text : Option String → Exec Response Unit
raise_text none = pure tt
raise_text (some description) = raise (bad_request description)

module _ (env : Env) where
  -- `none` is the answer `nil`.
  unfoldable pub validate_redirect_uri : String → Option String
  validate_redirect_uri uri =
      if not (env.url_parses uri)
      then some (join "invalid URI: " uri)
      else if not (str_eq (env.url_fragment uri) "")
      then some (join "redirect URI must not contain a fragment: " uri)
      else if str_eq (env.url_scheme uri) "" || str_eq (env.url_host uri) ""
      then some (join "redirect URI must have scheme and host: " uri)
      else none

  unfoldable pub redirect_uri_response : RedirectUri → List (String × Value)
  redirect_uri_response u =
      ("id", text (env.uuid_string u.id))
      ∷ ("uri", text u.uri)
      ∷ ("created_at", text (env.format_rfc3339 u.created_at))
      ∷ []

  unfoldable pub handle_list : Request → Exec Response Response
  handle_list r = do
    client_db_id ← or_raise (env.uuid_parse (r.param "id")) (bad_request "invalid client id format")
    found ← or_server_error (Clients.find_by_id env client_db_id)
    client ← or_raise found (not_found "client not found")
    uris ← or_server_error (RedirectUris.list_by_client_id env client_db_id)
    pure (json 200 (objects (map redirect_uri_response uris)))

  unfoldable pub handle_create : Request → Exec Response Response
  handle_create r = do
    client_db_id ← or_raise (env.uuid_parse (r.param "id")) (bad_request "invalid client id format")
    found ← or_server_error (Clients.find_by_id env client_db_id)
    client ← or_raise found (not_found "client not found")
    fields ← or_raise r.bind (bad_request "invalid request body")
    raise_text (validate_redirect_uri (text_field fields "uri"))
    uri ← or_server_error (RedirectUris.create_uri env client_db_id (text_field fields "uri"))
    pure (json 201 (object (redirect_uri_response uri)))

  unfoldable pub handle_delete : Request → Exec Response Response
  handle_delete r = do
    client_db_id ← or_raise (env.uuid_parse (r.param "id")) (bad_request "invalid client id format")
    uri_id ← or_raise (env.uuid_parse (r.param "uri_id")) (bad_request "invalid uri_id format")
    found ← or_server_error (RedirectUris.find_by_id env uri_id)
    uri ← or_raise found (not_found "redirect URI not found")
    raise_if (not (uri.client_db_id == client_db_id))
        (not_found "redirect URI not found for this client")
    or_server_error (RedirectUris.delete_uri env uri_id)
    pure (json 204 empty)
