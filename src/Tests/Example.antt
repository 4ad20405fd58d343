-- ===== src/Tests/Example.antt =====
-- An environment to run the model in, and a world with a tenant, two clients, a user and a session.
use Prim.Native.Nat.{◌/◌, ◌%◌}
use Prim.Native.Char.{Char, code}
use Prim.Native.String.{◌++◌ as join}
use oidc_demo.Base.{
  pos, Bool, false, ◌==◌, ◌&&◌, length, ℕ, zero, suc, ◌+◌, ◌-◌, ◌*◌, String, true, Option, none,
  some, List, [], ◌∷◌, any, ltb, str_eq, split, if◌then◌else◌,
}
use mathlib.Core.Option
use oidc_demo.Model.{
  Tenant, Client, User, Session, AuthorizationCode, AccessToken, RefreshToken, SignKey, Jwt, Jwk,
  Credential, AdminUser, AdminSession,
}
use oidc_demo.Env.{Env, Bytes}
use oidc_demo.World.{World}
use oidc_demo.Http.{Request, Fields}
use oidc_demo.Oidc.Config.{Config}
use oidc_demo.Tests.InMemory.{in_memory}

abbrev char_codes : String → Bytes
char_codes String.[] = []
char_codes (String.◌∷◌ c s) = code c ∷ char_codes s

-- The character at a place, as a text.
abbrev pick : String → ℕ → String
pick String.[] n = ""
pick (String.◌∷◌ c s) zero = String.◌∷◌ c String.[]
pick (String.◌∷◌ c s) (suc n) = pick s n

abbrev digit : ℕ → String
digit = pick "0123456789abcdef"

abbrev hex : Bytes → String
hex [] = ""
hex (b ∷ bytes) = join (digit (b / 16)) (join (digit (b % 16)) (hex bytes))

abbrev digit_value : Char → ℕ
digit_value c = if ltb (code c) 58 then code c - 48 else code c - 87

abbrev un_hex : String → Bytes
un_hex String.[] = []
un_hex (String.◌∷◌ c String.[]) = []
un_hex (String.◌∷◌ c (String.◌∷◌ d s)) = (digit_value c * 16 + digit_value d) ∷ un_hex s

abbrev number_of : Bytes → Option ℕ
number_of (n ∷ []) = some n
number_of bytes = none

abbrev pub replicate : ℕ → ℕ → Bytes
replicate zero n = []
replicate (suc k) n = n ∷ replicate k n

abbrev text_of : Option String → String
text_of none = ""
text_of (some s) = s

-- A token is its key's id and four of its claims, with lines between.
abbrev sign : String → Jwt → String
sign kid t = join kid (
    join "\n" (
      join (text_of t.subject) (
        join "\n" (
          join (text_of t.jwt_id)
            (join "\n" (join (text_of t.scope) (join "\n" (text_of t.sid))))))))

abbrev claims_of : List String → Option Jwt
claims_of (subject ∷ jti ∷ scope ∷ sid ∷ []) = some (record {
  issuer = "";
  subject = some subject;
  audience = [];
  issued_at = 0;
  expiration = 0;
  jwt_id = some jti;
  scope = some scope;
  sid = some sid;
  auth_time = none;
  nonce = none;
  at_hash = none;
})
claims_of parts = none

abbrev parse : List Jwk → List String → Option Jwt
parse keys [] = none
parse keys (kid ∷ rest) =
    if any (λ (k : Jwk). str_eq k.key_id kid) keys then claims_of rest else none

abbrev pub same_bytes : Bytes → Bytes → Bool
same_bytes [] [] = true
same_bytes [] (b ∷ bs) = false
same_bytes (a ∷ xs) [] = false
same_bytes (a ∷ xs) (b ∷ ys) = let rest = same_bytes xs ys in a == b && rest

abbrev pub env : Env
env = record {
  gorm = in_memory;
  now = λ n. n;
  rand_read = λ n size. some (replicate size n);
  new_uuid = λ n. hex (n ∷ []);
  uuid_string = λ n. hex (n ∷ []);
  uuid_parse = λ s. number_of (un_hex s);
  sha256 = char_codes;
  hex_encode = hex;
  hex_decode = λ s. some (un_hex s);
  base64_raw_url = hex;
  base64_encode = hex;
  base64_decode = λ s. some (un_hex s);
  gcm_nonce_size = 12;
  gcm_seal = λ key nonce text. text;
  gcm_open = λ key nonce text. some text;
  rsa_generate_key = λ n. some (n ∷ []);
  rsa_public_key = λ key. some key;
  pem_encode = λ kind bytes. bytes;
  pem_decode = λ bytes. some bytes;
  parse_private_key = λ bytes. some bytes;
  parse_public_key = λ bytes. some bytes;
  bytes_text = hex;
  text_bytes = un_hex;
  format_date = λ t. hex (t ∷ []);
  format_rfc3339 = λ t. hex (t ∷ []);
  jwt_sign = λ kid key t. some (sign kid t);
  jwt_parse = λ n keys text. parse keys (split 10 text);
  argon2_id_key = λ password salt time memory threads size. replicate size (length password);
  constant_time_compare = same_bytes;
  base64_raw_std = hex;
  base64_raw_std_decode = λ s. some (un_hex s);
  sscanf_parameters = λ s. some (65536, 3, 4);
  atoi = λ s. Option.map pos (number_of (un_hex s));
  url_parses = λ url. true;
  url_fragment = λ url. "";
  url_scheme = λ url. "https";
  url_host = λ url. "shop";
}

abbrev pub config : Config
config = record {
  issuer_base_url = "https://op";
  login_page_url = "https://login";
  is_secure = true;
  enc_key = replicate 32 7;
}

abbrev pub acme : Tenant
acme = record {
  id = 1;
  code = "acme";
  name = "Acme";
  session_lifetime = 3600;
  auth_code_lifetime = 60;
  access_token_lifetime = 3600;
  refresh_token_lifetime = 86400;
  id_token_lifetime = 3600;
  created_at = 0;
  updated_at = 0;
}

abbrev pub shop : Client
shop = record {
  id = 2;
  tenant_id = 1;
  client_id = "shop";
  client_secret_hash = "$argon2id$v=19$m=65536,t=3,p=4$00$0303";
  name = "Shop";
  grant_types = "authorization_code" ∷ "refresh_token" ∷ [];
  response_types = "code" ∷ [];
  token_endpoint_auth_method = "client_secret_basic";
  require_pkce = true;
  frontchannel_logout_uri = none;
  backchannel_logout_uri = none;
  status = "active";
  created_at = 0;
  updated_at = 0;
}

abbrev pub alice_password : Credential
alice_password = record {
  id = 4;
  user_id = 3;
  kind = "password";
  created_at = 0;
  updated_at = 0;
  password_credential = some (record {
    id = 5;
    credential_id = 4;
    password_hash = "$argon2id$v=19$m=65536,t=3,p=4$00$0202";
    algorithm = "argon2id";
    updated_at = 0;
  });
}

abbrev pub alice : User
alice = record {
  id = 3;
  tenant_id = 1;
  login_id = "alice";
  email = "alice@acme";
  email_verified = true;
  name = some "Alice";
  status = "active";
  last_login_at = none;
  created_at = 0;
  updated_at = 0;
  credentials = alice_password ∷ [];
}

abbrev pub alice_session : Session
alice_session = record {
  id = 6;
  user_id = 3;
  tenant_id = 1;
  ip_address = "10.0.0.1";
  user_agent = "browser";
  expires_at = 1000000;
  revoked_at = none;
  created_at = 0;
  updated_at = 0;
}

abbrev pub alice_code : AuthorizationCode
alice_code = record {
  id = 7;
  session_id = 6;
  client_id = 2;
  code = "c0de";
  redirect_uri = "https://shop/cb";
  scope = "openid profile";
  nonce = none;
  code_challenge = some "76";
  code_challenge_method = some "S256";
  expires_at = 1000000;
  used_at = none;
}

abbrev pub alice_access : AccessToken
alice_access = record {
  id = 8;
  jti = "j8";
  session_id = 6;
  client_id = 2;
  scope = "openid profile";
  expires_at = 1000000;
  revoked_at = none;
}

abbrev pub alice_refresh : RefreshToken
alice_refresh = record {
  id = 9;
  token_hash = "7236";
  parent_id = none;
  session_id = 6;
  access_token_id = 8;
  expires_at = 1000000;
  revoked_at = none;
  reuse_detected_at = none;
}

abbrev pub first_key : SignKey
first_key = record {
  id = 10;
  kid = "k1";
  algorithm = "RS256";
  public_key = "01";
  private_key_ref = hex (replicate 12 1);
  active = true;
  created_at = 0;
  rotated_at = none;
}

abbrev pub root : AdminUser
root = record {
  id = 12;
  login_id = "root";
  password_hash = "$argon2id$v=19$m=65536,t=3,p=4$00$0202";
  name = "Root";
  status = "active";
  last_login_at = none;
  created_at = 0;
  updated_at = 0;
}

abbrev pub root_session : AdminSession
root_session = record {
  id = 13;
  admin_user_id = 12;
  ip_address = "10.0.0.1";
  user_agent = "browser";
  expires_at = 1000000;
  revoked_at = none;
  created_at = 0;
  updated_at = 0;
}

abbrev pub start : World
start = record {
  tick = 20;
  tenants = acme ∷ [];
  clients = shop ∷ [];
  redirect_uris =
      record { id = 11; client_db_id = 2; uri = "https://shop/cb"; created_at = 0 } ∷ [];
  users = alice ∷ [];
  sessions = alice_session ∷ [];
  auth_codes = alice_code ∷ [];
  access_tokens = alice_access ∷ [];
  refresh_tokens = alice_refresh ∷ [];
  id_tokens = [];
  sign_keys = first_key ∷ [];
  post_logout_redirect_uris = [];
  admin_users = root ∷ [];
  admin_sessions = root_session ∷ [];
}

abbrev pub field : List (String × String) → String → String
field [] name = ""
field ((key, value) ∷ rest) name = if str_eq key name then value else field rest name

abbrev pointer : List (String × String) → String → Option String
pointer [] name = none
pointer ((key, value) ∷ rest) name = if str_eq key name then some value else pointer rest name

abbrev pub fields_of : List (String × String) → Fields
fields_of fields = record {
  pointer = pointer fields;
  number = λ name. none;
  flag = λ name. none;
  list = λ name. none;
}

abbrev cookie : String → Option String
cookie name =
    if str_eq name "op_session"
    then some "06"
    else if str_eq name "op_admin_session"
    then some "0d"
    else none

-- A request with these fields, and the cookies of the user's and the administrator's sessions.
abbrev pub request : List (String × String) → Request
request fields = record {
  tenant_code = "acme";
  param = field fields;
  query_param = field fields;
  form_value = field fields;
  basic_auth = some ("shop", "s3cret");
  cookie = cookie;
  bind = some (fields_of fields);
  authorization = field fields "Authorization";
  real_ip = "10.0.0.1";
  user_agent = "browser";
  url = "/acme/authorize";
}

abbrev pub code_request : Request
code_request = request (
    ("grant_type", "authorization_code")
    ∷ ("code", "c0de")
    ∷ ("redirect_uri", "https://shop/cb")
    ∷ ("code_verifier", "v")
    ∷ [])

abbrev pub refresh_request : Request
refresh_request = request (("grant_type", "refresh_token") ∷ ("refresh_token", "r6") ∷ [])
