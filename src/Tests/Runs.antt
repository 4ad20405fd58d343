-- ===== src/Tests/Runs.antt =====
-- Requests and the states that they lead to.
use oidc_demo.Base.{
  ℕ, ◌≡◌, ◌<◌, sym, subst, String, Option, none, some, List, [], ◌∷◌, str_eq, if◌then◌else◌,
}
use oidc_demo.World.{World}
use oidc_demo.Oidc.AuthCode.{AuthCodeGrantInput}
use oidc_demo.Oidc.Refresh.{RefreshTokenGrantInput}
use oidc_demo.Http.{Request, Fields}
use oidc_demo.Server.Routes.{Route, serve}
use oidc_demo.Tests.Example.{
  env, config, start, request, fields_of, field, root_session, alice_refresh, alice_code,
  code_request, refresh_request,
}

abbrev pub after_code : World
after_code = (serve env config Route.token code_request start).1

abbrev pub after_refresh : World
after_refresh = (serve env config Route.token refresh_request start).1

-- The client asks for another scope than the token has.
abbrev pub wider_request : Request
wider_request =
    request
      (("grant_type", "refresh_token") ∷ ("refresh_token", "r6") ∷ ("scope", "openid admin") ∷ [])

abbrev pub revoked_start : World
revoked_start = record start { refresh_tokens = record alice_refresh { revoked_at = some 1 } ∷ [] }

abbrev pub used_start : World
used_start = record start { auth_codes = record alice_code { used_at = some 1 } ∷ [] }

abbrev pub incident_request : Request
incident_request = request (("tenant_id", "01") ∷ ("user_id", "03") ∷ [])

abbrev pub incident_fields : Fields
incident_fields = fields_of (("tenant_id", "01") ∷ ("user_id", "03") ∷ [])

abbrev pub authorize_request : Request
authorize_request = request (
    ("response_type", "code")
    ∷ ("client_id", "shop")
    ∷ ("redirect_uri", "https://shop/cb")
    ∷ ("scope", "openid")
    ∷ ("state", "xyz")
    ∷ ("code_challenge", "76")
    ∷ ("code_challenge_method", "S256")
    ∷ [])

abbrev pub access_text : String
access_text = "k1\n03\nj8\nopenid profile\n06"

abbrev pub userinfo_request : Request
userinfo_request = request (("Authorization", "Bearer k1\n03\nj8\nopenid profile\n06") ∷ [])

abbrev pub list_request : Request
list_request = request (("tenant_id", "01") ∷ ("limit", "05") ∷ [])

abbrev pub tenant_request : Request
tenant_request = request (("code", "new-shop") ∷ ("name", "New shop") ∷ [])

abbrev client_lists : String → Option (List String)
client_lists name =
    if str_eq name "grant_types"
    then some ("authorization_code" ∷ [])
    else if str_eq name "response_types"
    then some ("code" ∷ [])
    else if str_eq name "redirect_uris"
    then some ("https://app/cb" ∷ [])
    else none

abbrev pub client_request : Request
client_request = record (request (("tenant_id", "01") ∷ [])) {
  bind = some (record (fields_of (("name", "App") ∷ [])) { list = client_lists });
}

abbrev pub uri_request : Request
uri_request = request (("id", "02") ∷ ("uri", "https://shop/two") ∷ [])

abbrev pub uri_delete_request : Request
uri_delete_request = request (("id", "02") ∷ ("uri_id", "0b") ∷ [])

abbrev pub shop_request : Request
shop_request = request (("id", "02") ∷ [])

abbrev pub logged_out : World
logged_out = record start { admin_sessions = record root_session { revoked_at = some 1 } ∷ [] }

abbrev pub settings : String → String
settings = field (
    ("OP_BACKEND_PORT", "8080")
    ∷ ("OP_BACKEND_DSN", "dsn")
    ∷ ("OP_BACKEND_BASE_URL", "https://op//")
    ∷ ("OP_KEY_ENCRYPTION_KEY", "0707070707070707070707070707070707070707070707070707070707070707")
    ∷ ("OP_FRONTEND_BASE_URL", "https://login")
    ∷ [])

abbrev pub code_input : AuthCodeGrantInput
code_input = record {
  client_id = "shop";
  client_secret = "s3cret";
  code = "c0de";
  redirect_uri = "https://shop/cb";
  code_verifier = "v";
}

abbrev pub wide_input : RefreshTokenGrantInput
wide_input = record {
  client_id = "shop";
  client_secret = "s3cret";
  refresh_token = "r6";
  scope = "openid admin";
}

-- A status that is known is below 400.
pub below : {n m : ℕ} → n ≡ m → m < 400 → n < 400
below e h = subst (λ x. x < 400) (sym e) h
