-- ===== src/Http.antt =====
-- Requests and responses, as far as the handlers read and write them (labstack/echo).
use oidc_demo.Base.{ℕ, ℤ, String, Bool, Option, none, some, List, [], ◌∷◌}
use oidc_demo.World.{World, Exec, Result, ok, err, map_err, M}
use oidc_demo.Model.{Jwk}

-- The fields of a JSON body, by the type of the struct's field: `none` is a field that is absent.
pub record Fields : Type 0 where
  pub pointer : String → Option String
  pub number : String → Option ℤ
  pub flag : String → Option Bool
  pub list : String → Option (List String)

abbrev or_empty : Option String → String
or_empty none = ""
or_empty (some s) = s

-- A field of type `string`.
abbrev pub text_field : Fields → String → String
text_field fields name = or_empty (fields.pointer name)

-- A parameter or a header that is absent is the empty text, as echo gives it.
pub record Request : Type 0 where
  pub tenant_code : String
  -- a parameter in the path, other than the tenant's code
  pub param : String → String
  pub query_param : String → String
  pub form_value : String → String
  pub basic_auth : Option (String × String)
  pub cookie : String → Option String
  -- the JSON body; `none` is a body that cannot be bound
  pub bind : Option Fields
  pub authorization : String
  pub real_ip : String
  pub user_agent : String
  pub url : String

-- TokenResponse of oidc/token_authcode.go
pub record TokenResponse : Type 0 where
  pub access_token : String
  pub token_type : String
  pub expires_in : ℕ
  pub refresh_token : String
  pub id_token : String
  pub scope : String

-- The values of a JSON object.
pub data Value : Type 0 where
  text : String → Value
  number : ℕ → Value
  flag : Bool → Value
  null : Value
  texts : List String → Value
  -- the `user` object: its id, name and email
  user : String → Option String → String → Value
  -- an administrator: the id, login id and name
  admin_user : String → String → String → Value
  -- a list of objects whose fields are texts
  records : List (List (String × String)) → Value

-- `error` omits an empty description. `redirect` is the address that `url.Parse` read, with the
-- query parameters that `Set` gives it.
pub data Body : Type 0 where
  empty : Body
  error : String → String → Body
  token : TokenResponse → Body
  object : List (String × Value) → Body
  redirect : String → List (String × String) → Body
  keys : List Jwk → Body
  objects : List (List (String × Value)) → Body
  -- the rows of a page and the number of all rows
  page : List (List (String × Value)) → ℕ → Body
  -- the numbers of the revoked sessions, access tokens and refresh tokens
  revoked : ℕ → ℕ → ℕ → Body

pub record Cookie : Type 0 where
  pub name : String
  pub value : String
  pub path : String
  pub http_only : Bool
  pub secure : Bool
  pub same_site : String
  -- a negative number deletes the cookie, and zero says nothing
  pub max_age : ℤ

pub record Response : Type 0 where
  pub status : ℕ
  pub headers : List (String × String)
  pub cookies : List Cookie
  pub body : Body

abbrev pub json : ℕ → Body → Response
json status body = record { status = status; headers = []; cookies = []; body = body }

abbrev pub with_header : String → String → Response → Response
with_header name value r = record r { headers = (name, value) ∷ r.headers }

abbrev pub server_error : Response
server_error = json 500 (error "server_error" "")

-- A handler ends with its response, whether early or late.
abbrev pub answer : Result Response Response → Response
answer (ok r) = r
answer (err r) = r

unfoldable pub respond : Exec Response Response → World → Response × World
respond m w = let (r, w') = m w in (answer r, w')

-- An error of a service that the handler answers with a server error, whatever it is.
abbrev pub or_server_error : {A : Type 0} → M A → Exec Response A
or_server_error = map_err (λ e. server_error)
