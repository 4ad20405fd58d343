-- ===== src/Config.antt =====
-- op/backend/config/config.go: the settings that the program reads from its environment.
use Prim.Native.Char.{code}
use oidc_demo.Base.{
  ℕ, String, Bool, true, false, ◌&&◌, ◌==◌, str_eq, is_some, strip_prefix, if◌then◌else◌,
}
use oidc_demo.World.{Result, ok, err}

pub record Config : Type 0 where
  pub port : String
  pub dsn : String
  pub base_url : String
  pub key_encryption_key : String
  pub frontend_base_url : String

abbrev pub slash : ℕ
slash = 47

abbrev pub is_empty : String → Bool
is_empty String.[] = true
is_empty (String.◌∷◌ c s) = false

-- `strings.TrimRight` with a set of one character
unfoldable pub trim_right : ℕ → String → String
trim_right sep String.[] = String.[]
trim_right sep (String.◌∷◌ c s) =
    let rest = trim_right sep s in
    if is_empty rest && code c == sep then String.[] else String.◌∷◌ c rest

-- `os.Getenv` gives the empty text for a variable that is not set. The error is the text that names
-- the first variable that is missing.
unfoldable pub load : (String → String) → Result String Config
load getenv =
    if str_eq (getenv "OP_BACKEND_PORT") ""
    then err "OP_BACKEND_PORT is required"
    else if str_eq (getenv "OP_BACKEND_DSN") ""
    then err "OP_BACKEND_DSN is required"
    else if str_eq (getenv "OP_BACKEND_BASE_URL") ""
    then err "OP_BACKEND_BASE_URL is required"
    else if str_eq (getenv "OP_KEY_ENCRYPTION_KEY") ""
    then err "OP_KEY_ENCRYPTION_KEY is required"
    else if str_eq (getenv "OP_FRONTEND_BASE_URL") ""
    then err "OP_FRONTEND_BASE_URL is required"
    else ok (record {
      port = getenv "OP_BACKEND_PORT";
      dsn = getenv "OP_BACKEND_DSN";
      base_url = trim_right slash (getenv "OP_BACKEND_BASE_URL");
      key_encryption_key = getenv "OP_KEY_ENCRYPTION_KEY";
      frontend_base_url = getenv "OP_FRONTEND_BASE_URL";
    })

unfoldable pub is_secure : Config → Bool
is_secure c = is_some (strip_prefix "https://" c.base_url)
