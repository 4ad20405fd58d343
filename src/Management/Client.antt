-- ===== src/Management/Client.antt =====
-- client.go: the clients of a tenant.
mod Checks
unfoldable pub use Checks.{
  is_nil, check_each, check_required, check_uris, valid_grant_type, valid_response_type,
  valid_auth_method, check_name, check_grant_types, check_response_types, check_auth_method,
  auth_method_or_default, check_new,
}
use oidc_demo.Base.{
  ℕ, String, Bool, true, false, Option, none, some, List, [], ◌∷◌, ◌++◌, map, len, not, ◌||◌, ltb,
  str_eq, if◌then◌else◌, join,
}
use oidc_demo.Model.{Uuid, Time, Client, RedirectUri, PostLogoutRedirectUri}
use oidc_demo.World.{Env, Exec, or_raise, raise_if, pure, ◌>>=◌, ◌>>◌}
use oidc_demo.Http.{
  Request, Fields, Response, Value, text, texts, flag, records, text_field, json, empty, object,
}
use oidc_demo.Management.Errors.{bad_request, not_found, or_server_error}
use oidc_demo.Management.Response.{parse_pagination, list_response}
use oidc_demo.Management.Secret.{generate_client_id, generate_client_secret}
use oidc_demo.Crypto.Argon2id.{hash_password}
use oidc_demo.Store.Tenants
use oidc_demo.Store.Clients

abbrev or_nil : Option (List String) → List String
or_nil none = []
or_nil (some xs) = xs

-- A field of type `[]string`.
abbrev pub list_field : Fields → String → List String
list_field fields name = or_nil (fields.list name)

abbrev or_true : Option Bool → Bool
or_true none = true
or_true (some b) = b

-- The row of a new client.
unfoldable pub new_client : Uuid → Fields → String → String → Uuid → Time → Client
new_client tenant_id fields client_id secret_hash id at = record {
  id = id;
  tenant_id = tenant_id;
  client_id = client_id;
  client_secret_hash = secret_hash;
  name = text_field fields "name";
  grant_types = list_field fields "grant_types";
  response_types = list_field fields "response_types";
  token_endpoint_auth_method = auth_method_or_default fields;
  require_pkce = or_true (fields.flag "require_pkce");
  frontchannel_logout_uri = fields.pointer "frontchannel_logout_uri";
  backchannel_logout_uri = fields.pointer "backchannel_logout_uri";
  status = "active";
  created_at = at;
  updated_at = at;
}

-- `omitempty`
abbrev optional : String → Option String → List (String × Value)
optional name none = []
optional name (some value) = (name, text value) ∷ []

-- The steps of an update: a field that is given is checked and replaces that of the row.
unfoldable pub apply_name : Option String → Client → Exec Response Client
apply_name none c = pure c
apply_name (some name) c = do
  raise_if (str_eq name "" || ltb 255 (len name)) (bad_request "name must be 1-255 characters")
  pure (record c { name = name })

unfoldable pub apply_grant_types : Option (List String) → Client → Exec Response Client
apply_grant_types none c = pure c
apply_grant_types (some grant_types) c = do
  check_each valid_grant_type "unsupported grant_type: " grant_types
  pure (record c { grant_types = grant_types })

unfoldable pub apply_response_types : Option (List String) → Client → Exec Response Client
apply_response_types none c = pure c
apply_response_types (some response_types) c = do
  check_each valid_response_type "unsupported response_type: " response_types
  pure (record c { response_types = response_types })

unfoldable pub apply_auth_method : Option String → Client → Exec Response Client
apply_auth_method none c = pure c
apply_auth_method (some auth_method) c = do
  raise_if (not (valid_auth_method auth_method))
      (bad_request (join "unsupported token_endpoint_auth_method: " auth_method))
  pure (record c { token_endpoint_auth_method = auth_method })

abbrev pub or_keep : {A : Type 0} → Option A → A → A
or_keep none a = a
or_keep (some b) a = b

abbrev pub or_kept : Option String → Option String → Option String
or_kept none o = o
or_kept (some b) o = some b

unfoldable pub apply_rest : Fields → Client → Client
apply_rest fields c = record c {
  require_pkce = or_keep (fields.flag "require_pkce") c.require_pkce;
  frontchannel_logout_uri =
      or_kept (fields.pointer "frontchannel_logout_uri") c.frontchannel_logout_uri;
  backchannel_logout_uri =
      or_kept (fields.pointer "backchannel_logout_uri") c.backchannel_logout_uri;
}

unfoldable pub apply_update : Fields → Client → Exec Response Client
apply_update fields c = do
  named ← apply_name (fields.pointer "name") c
  granted ← apply_grant_types (fields.list "grant_types") named
  responding ← apply_response_types (fields.list "response_types") granted
  authenticating ← apply_auth_method (fields.pointer "token_endpoint_auth_method") responding
  pure (apply_rest fields authenticating)

module _ (env : Env) where
  unfoldable pub to_client_response : Client → List (String × Value)
  to_client_response c =
      ("id", text (env.uuid_string c.id))
      ∷ ("tenant_id", text (env.uuid_string c.tenant_id))
      ∷ ("client_id", text c.client_id)
      ∷ ("name", text c.name)
      ∷ ("grant_types", texts c.grant_types)
      ∷ ("response_types", texts c.response_types)
      ∷ ("token_endpoint_auth_method", text c.token_endpoint_auth_method)
      ∷ ("require_pkce", flag c.require_pkce)
      ∷ (optional "frontchannel_logout_uri" c.frontchannel_logout_uri
          ++ optional "backchannel_logout_uri" c.backchannel_logout_uri
          ++ (("status", text c.status)
              ∷ ("created_at", text (env.format_rfc3339 c.created_at))
              ∷ ("updated_at", text (env.format_rfc3339 c.updated_at))
              ∷ []))

  unfoldable pub handle_list : Request → Exec Response Response
  handle_list r = do
    tenant_id ←
        or_raise (env.uuid_parse (r.param "tenant_id")) (bad_request "invalid tenant_id format")
    tenant_found ← or_server_error (Tenants.find_by_id env tenant_id)
    tenant ← or_raise tenant_found (not_found "tenant not found")
    let p = parse_pagination env r
    found ← or_server_error (Clients.list_by_tenant_id env tenant_id p.limit p.offset)
    pure (list_response (map to_client_response found.0) found.1)

  unfoldable pub handle_create : Request → Exec Response Response
  handle_create r = do
    tenant_id ←
        or_raise (env.uuid_parse (r.param "tenant_id")) (bad_request "invalid tenant_id format")
    tenant_found ← or_server_error (Tenants.find_by_id env tenant_id)
    tenant ← or_raise tenant_found (not_found "tenant not found")
    fields ← or_raise r.bind (bad_request "invalid request body")
    check_new env fields (list_field fields "grant_types") (list_field fields "response_types")
        (list_field fields "redirect_uris") (list_field fields "post_logout_redirect_uris")
    client_id ← or_server_error (generate_client_id env)
    client_secret ← or_server_error (generate_client_secret env)
    secret_hash ← or_server_error (hash_password env client_secret)
    client ← or_server_error (
        Clients.create_client env (new_client tenant_id fields client_id secret_hash)
          (list_field fields "redirect_uris") (list_field fields "post_logout_redirect_uris"))
    pure (
        json 201
          (object (to_client_response client ++ (("client_secret", text client_secret) ∷ []))))

  abbrev redirect_uri_fields : ℕ → String → Time → List (String × String)
  redirect_uri_fields id uri created_at =
      ("id", env.uuid_string id) ∷ ("uri", uri) ∷ ("created_at", env.format_rfc3339 created_at) ∷ []

  unfoldable pub client_detail :
      Client → List RedirectUri → List PostLogoutRedirectUri → List (String × Value)
  client_detail c uris posts =
      to_client_response c
      ++ ((
        "redirect_uris",
        records (map (λ (u : RedirectUri). redirect_uri_fields u.id u.uri u.created_at) uris),
      )
          ∷ (
            "post_logout_redirect_uris",
            records (
                map (λ (u : PostLogoutRedirectUri). redirect_uri_fields u.id u.uri u.created_at)
                  posts),
          )
          ∷ [])

  unfoldable pub handle_get : Request → Exec Response Response
  handle_get r = do
    id ← or_raise (env.uuid_parse (r.param "id")) (bad_request "invalid client id format")
    found ← or_server_error (Clients.find_by_id_with_relations env id)
    row ← or_raise found (not_found "client not found")
    let (client, uris, posts) = row
    pure (json 200 (object (client_detail client uris posts)))

  unfoldable pub handle_update : Request → Exec Response Response
  handle_update r = do
    id ← or_raise (env.uuid_parse (r.param "id")) (bad_request "invalid client id format")
    found ← or_server_error (Clients.find_by_id env id)
    client ← or_raise found (not_found "client not found")
    fields ← or_raise r.bind (bad_request "invalid request body")
    changed ← apply_update fields client
    saved ← or_server_error (Clients.update env changed)
    pure (json 200 (object (to_client_response saved)))

  unfoldable pub handle_delete : Request → Exec Response Response
  handle_delete r = do
    id ← or_raise (env.uuid_parse (r.param "id")) (bad_request "invalid client id format")
    found ← or_server_error (Clients.find_by_id env id)
    client ← or_raise found (not_found "client not found")
    or_server_error (Clients.soft_delete env id)
    pure (json 204 empty)

  unfoldable pub handle_rotate_secret : Request → Exec Response Response
  handle_rotate_secret r = do
    id ← or_raise (env.uuid_parse (r.param "id")) (bad_request "invalid client id format")
    found ← or_server_error (Clients.find_by_id env id)
    client ← or_raise found (not_found "client not found")
    new_secret ← or_server_error (generate_client_secret env)
    new_hash ← or_server_error (hash_password env new_secret)
    or_server_error (Clients.update_secret_hash env id new_hash)
    pure (
        json 200
          (object (("client_id", text client.client_id) ∷ ("client_secret", text new_secret) ∷ [])))
