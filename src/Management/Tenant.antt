-- ===== src/Management/Tenant.antt =====
-- tenant.go: the tenants.
use oidc_demo.Base.{
  ℕ, ℤ, String, Option, none, some, List, [], ◌∷◌, map, len, not, ◌||◌, ltb, str_eq, is_some,
  is_positive, to_nat, if◌then◌else◌,
}
use oidc_demo.Model.{Uuid, Time, Tenant}
use oidc_demo.World.{Env, Exec, or_raise, raise_if, pure, ◌>>=◌, ◌>>◌}
use oidc_demo.Http.{Request, Fields, Response, Value, text, number, text_field, json, object}
use oidc_demo.Management.Errors.{bad_request, not_found, conflict, or_server_error}
use oidc_demo.Management.Response.{parse_pagination, list_response}
use oidc_demo.Management.RedirectUri.{raise_text}
use oidc_demo.Management.TenantCode.{tenant_code_matches}
use oidc_demo.Store.Tenants

-- A lifetime that is given and not positive is refused. `none` is the answer `nil`.
unfoldable pub validate_lifetimes : List (Option ℤ) → Option String
validate_lifetimes [] = none
validate_lifetimes (none ∷ vals) = validate_lifetimes vals
validate_lifetimes (some v ∷ vals) =
    let rest = validate_lifetimes vals in
    if is_positive v then rest else some "lifetime values must be positive"

-- A lifetime that is given has been checked: it is positive.
unfoldable pub or_default : Option ℤ → ℕ → ℕ
or_default none default = default
or_default (some v) default = to_nat v

abbrev pub lifetimes : Fields → List (Option ℤ)
lifetimes fields =
    fields.number "session_lifetime"
    ∷ fields.number "auth_code_lifetime"
    ∷ fields.number "access_token_lifetime"
    ∷ fields.number "refresh_token_lifetime"
    ∷ fields.number "id_token_lifetime"
    ∷ []

-- The row of a new tenant.
unfoldable pub new_tenant : Fields → Uuid → Time → Tenant
new_tenant fields id at = record {
  id = id;
  code = text_field fields "code";
  name = text_field fields "name";
  session_lifetime = or_default (fields.number "session_lifetime") 3600;
  auth_code_lifetime = or_default (fields.number "auth_code_lifetime") 60;
  access_token_lifetime = or_default (fields.number "access_token_lifetime") 3600;
  refresh_token_lifetime = or_default (fields.number "refresh_token_lifetime") 2592000;
  id_token_lifetime = or_default (fields.number "id_token_lifetime") 3600;
  created_at = at;
  updated_at = at;
}

-- The fields that are given replace those of the row; the name is checked first.
unfoldable pub apply_lifetimes : Fields → Tenant → Tenant
apply_lifetimes fields t = record t {
  session_lifetime = or_default (fields.number "session_lifetime") t.session_lifetime;
  auth_code_lifetime = or_default (fields.number "auth_code_lifetime") t.auth_code_lifetime;
  access_token_lifetime =
      or_default (fields.number "access_token_lifetime") t.access_token_lifetime;
  refresh_token_lifetime =
      or_default (fields.number "refresh_token_lifetime") t.refresh_token_lifetime;
  id_token_lifetime = or_default (fields.number "id_token_lifetime") t.id_token_lifetime;
}

unfoldable pub apply_name : Option String → Tenant → Exec Response Tenant
apply_name none t = pure t
apply_name (some name) t = do
  raise_if (str_eq name "" || ltb 255 (len name)) (bad_request "name must be 1-255 characters")
  pure (record t { name = name })

-- The checks of a new tenant, before the database is asked.
unfoldable pub check_new : Fields → Exec Response Unit
check_new fields = do
  raise_if (str_eq (text_field fields "code") "") (bad_request "code is required")
  raise_if (not (tenant_code_matches (text_field fields "code"))) (
      bad_request
        "code must be 3-63 chars, lowercase alphanumeric and hyphens, start/end with alphanumeric")
  raise_if (str_eq (text_field fields "name") "") (bad_request "name is required")
  raise_if (ltb 255 (len (text_field fields "name")))
      (bad_request "name must be at most 255 characters")
  raise_text (validate_lifetimes (lifetimes fields))

module _ (env : Env) where
  unfoldable pub to_tenant_response : Tenant → List (String × Value)
  to_tenant_response t =
      ("id", text (env.uuid_string t.id))
      ∷ ("code", text t.code)
      ∷ ("name", text t.name)
      ∷ ("session_lifetime", number t.session_lifetime)
      ∷ ("auth_code_lifetime", number t.auth_code_lifetime)
      ∷ ("access_token_lifetime", number t.access_token_lifetime)
      ∷ ("refresh_token_lifetime", number t.refresh_token_lifetime)
      ∷ ("id_token_lifetime", number t.id_token_lifetime)
      ∷ ("created_at", text (env.format_rfc3339 t.created_at))
      ∷ ("updated_at", text (env.format_rfc3339 t.updated_at))
      ∷ []

  unfoldable pub handle_list : Request → Exec Response Response
  handle_list r = do
    let p = parse_pagination env r
    found ← or_server_error (Tenants.list env p.limit p.offset)
    pure (list_response (map to_tenant_response found.0) found.1)

  unfoldable pub handle_create : Request → Exec Response Response
  handle_create r = do
    fields ← or_raise r.bind (bad_request "invalid request body")
    check_new fields
    existing ← or_server_error (Tenants.find_by_code env (text_field fields "code"))
    raise_if (is_some existing) (conflict "tenant code already exists")
    tenant ← or_server_error (Tenants.create_tenant env (new_tenant fields))
    pure (json 201 (object (to_tenant_response tenant)))

  unfoldable pub handle_get : Request → Exec Response Response
  handle_get r = do
    id ← or_raise (env.uuid_parse (r.param "tenant_id")) (bad_request "invalid tenant_id format")
    found ← or_server_error (Tenants.find_by_id env id)
    tenant ← or_raise found (not_found "tenant not found")
    pure (json 200 (object (to_tenant_response tenant)))

  unfoldable pub handle_update : Request → Exec Response Response
  handle_update r = do
    id ← or_raise (env.uuid_parse (r.param "tenant_id")) (bad_request "invalid tenant_id format")
    found ← or_server_error (Tenants.find_by_id env id)
    tenant ← or_raise found (not_found "tenant not found")
    fields ← or_raise r.bind (bad_request "invalid request body")
    raise_text (validate_lifetimes (lifetimes fields))
    named ← apply_name (fields.pointer "name") tenant
    saved ← or_server_error (Tenants.update env (apply_lifetimes fields named))
    pure (json 200 (object (to_tenant_response saved)))
