-- ===== src/Management/Client/Checks.antt =====
-- client.go: the checks of a client's fields.
use oidc_demo.Base.{
  String, Bool, true, false, List, [], ◌∷◌, contains, join, len, not, ◌||◌, ltb, str_eq,
  if◌then◌else◌,
}
use oidc_demo.World.{Env, Exec, raise_if, pure, ◌>>◌}
use oidc_demo.Http.{Fields, Response, text_field}
use oidc_demo.Management.Errors.{bad_request}
use oidc_demo.Management.RedirectUri.{validate_redirect_uri, raise_text}

-- The three maps of valid values.
abbrev pub valid_grant_type : String → Bool
valid_grant_type = contains ("authorization_code" ∷ "refresh_token" ∷ "client_credentials" ∷ [])

abbrev pub valid_response_type : String → Bool
valid_response_type = contains ("code" ∷ [])

abbrev pub valid_auth_method : String → Bool
valid_auth_method = contains ("client_secret_basic" ∷ "client_secret_post" ∷ "none" ∷ [])

-- The first value that is not valid is answered.
unfoldable pub check_each : (String → Bool) → String → List String → Exec Response Unit
check_each valid message [] = pure tt
check_each valid message (x ∷ xs) = do
  raise_if (not (valid x)) (bad_request (join message x))
  check_each valid message xs

unfoldable pub check_name : String → Exec Response Unit
check_name name =
    raise_if (str_eq name "" || ltb 255 (len name))
      (bad_request "name is required and must be at most 255 characters")

abbrev pub is_nil : List String → Bool
is_nil [] = true
is_nil (x ∷ xs) = false

-- A list that is required, and its values.
unfoldable pub check_required : (String → Bool) → String → String → List String → Exec Response Unit
check_required valid required message xs = do
  raise_if (is_nil xs) (bad_request required)
  check_each valid message xs

unfoldable pub check_grant_types : List String → Exec Response Unit
unfolding check_required
check_grant_types =
    check_required valid_grant_type "grant_types is required" "unsupported grant_type: "

unfoldable pub check_response_types : List String → Exec Response Unit
unfolding check_required
check_response_types =
    check_required valid_response_type "response_types is required" "unsupported response_type: "

abbrev pub auth_method_or_default : Fields → String
auth_method_or_default fields =
    if str_eq (text_field fields "token_endpoint_auth_method") ""
    then "client_secret_basic"
    else text_field fields "token_endpoint_auth_method"

unfoldable pub check_auth_method : String → Exec Response Unit
check_auth_method auth_method =
    raise_if (not (valid_auth_method auth_method))
      (bad_request (join "unsupported token_endpoint_auth_method: " auth_method))

module _ (env : Env) where
  unfoldable pub check_uris : List String → Exec Response Unit
  check_uris [] = pure tt
  check_uris (uri ∷ uris) = do raise_text (validate_redirect_uri env uri); check_uris uris

  -- The checks of a new client: its fields, grant types, response types, and the two lists of addresses.
  unfoldable pub check_new :
      Fields → List String → List String → List String → List String → Exec Response Unit
  check_new fields grant_types response_types uris post_logout_uris = do
    check_name (text_field fields "name")
    check_grant_types grant_types
    check_response_types response_types
    check_auth_method (auth_method_or_default fields)
    check_uris uris
    check_uris post_logout_uris
