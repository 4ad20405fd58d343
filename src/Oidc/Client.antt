-- ===== src/Oidc/Client.antt =====
-- How the token and revocation endpoints authenticate a client.
use oidc_demo.Base.{String, Bool, false, Option, none, some, not, ◌&&◌, ◌||◌, str_eq, if◌then◌else◌}
use oidc_demo.Crypto.Argon2id.{verify_password}
use oidc_demo.Model.{Client}
use oidc_demo.World.{Env, M, invalid_client, or_raise, raise_if, pure, ◌>>=◌, ◌>>◌}
use oidc_demo.Http.{Request}
use oidc_demo.Store.Clients

-- `err != nil || !match` is its negation.
abbrev pub verified : Option Bool → Bool
verified none = false
verified (some match) = match

abbrev pub is_active : Client → Bool
is_active c = str_eq c.status "active"

-- Both texts, or two empty ones.
abbrev basic : Option (String × String) → String × String
basic none = ("", "")
basic (some (id, secret)) =
    if not (str_eq id "") && not (str_eq secret "") then (id, secret) else ("", "")

-- extractClientCredentials of token.go: the form first, then the Authorization header
unfoldable pub extract_client_credentials : Request → String × String
extract_client_credentials r =
    if not (str_eq (r.form_value "client_id") "") && not (str_eq (r.form_value "client_secret") "")
    then (r.form_value "client_id", r.form_value "client_secret")
    else basic r.basic_auth

abbrev pub missing : String × String → Bool
missing (id, secret) = str_eq id "" || str_eq secret ""

module _ (env : Env) where
  -- The opening lines of both grants.
  unfoldable pub authenticate_client : String → String → M Client
  authenticate_client client_id client_secret = do
    found ← Clients.find_by_client_id env client_id
    client ← or_raise found invalid_client
    raise_if (not (is_active client)) invalid_client
    raise_if (not (verified (verify_password env client_secret client.client_secret_hash)))
        invalid_client
    pure client
