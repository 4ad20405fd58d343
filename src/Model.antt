-- ===== src/Model.antt =====
-- The data of op/backend/internal/model: one record for each struct. A UUID is a number, a
-- `time.Time` is a number of nanoseconds, a pointer is an `Option`, and a field that gorm preloads
-- (`Session`, `Client`, ...) is given beside the row by the query that loads it.
mod Token
mod Admin
pub mod Time
unfoldable pub use Token.*
unfoldable pub use Admin.*
use oidc_demo.Base.{
  ℕ, String, Bool, true, false, Option, none, List, [], ◌<◌, ltb, ◌&&◌, is_some, not,
}
use oidc_demo.Base.{any, str_eq}

abbrev pub Uuid : Type 0
Uuid = ℕ

abbrev pub Time : Type 0
Time = ℕ

-- tenant.go
pub record Tenant : Type 0 where
  pub id : Uuid
  pub code : String
  pub name : String
  pub session_lifetime : ℕ
  pub auth_code_lifetime : ℕ
  pub access_token_lifetime : ℕ
  pub refresh_token_lifetime : ℕ
  pub id_token_lifetime : ℕ
  pub created_at : Time
  pub updated_at : Time

-- client.go
pub record Client : Type 0 where
  pub id : Uuid
  pub tenant_id : Uuid
  pub client_id : String
  pub client_secret_hash : String
  pub name : String
  pub grant_types : List String
  pub response_types : List String
  pub token_endpoint_auth_method : String
  pub require_pkce : Bool
  pub frontchannel_logout_uri : Option String
  pub backchannel_logout_uri : Option String
  pub status : String
  pub created_at : Time
  pub updated_at : Time

unfoldable pub has_grant_type : Client → String → Bool
has_grant_type c grant_type = any (λ gt. str_eq gt grant_type) c.grant_types

-- redirect_uri.go
pub record RedirectUri : Type 0 where
  pub id : Uuid
  pub client_db_id : Uuid
  pub uri : String
  pub created_at : Time

-- post_logout_redirect_uri.go
pub record PostLogoutRedirectUri : Type 0 where
  pub id : Uuid
  pub client_db_id : Uuid
  pub uri : String
  pub created_at : Time

-- password_credential.go
pub record PasswordCredential : Type 0 where
  pub id : Uuid
  pub credential_id : Uuid
  pub password_hash : String
  pub algorithm : String
  pub updated_at : Time

-- credential.go, with its preloaded password
pub record Credential : Type 0 where
  pub id : Uuid
  pub user_id : Uuid
  pub kind : String
  pub created_at : Time
  pub updated_at : Time
  pub password_credential : Option PasswordCredential

-- user.go; the row carries its credentials
pub record User : Type 0 where
  pub id : Uuid
  pub tenant_id : Uuid
  pub login_id : String
  pub email : String
  pub email_verified : Bool
  pub name : Option String
  pub status : String
  pub last_login_at : Option Time
  pub created_at : Time
  pub updated_at : Time
  pub credentials : List Credential

-- session.go
pub record Session : Type 0 where
  pub id : Uuid
  pub user_id : Uuid
  pub tenant_id : Uuid
  pub ip_address : String
  pub user_agent : String
  pub expires_at : Time
  pub revoked_at : Option Time
  pub created_at : Time
  pub updated_at : Time

unfoldable pub is_valid : Time → Session → Bool
is_valid now s = not (is_some s.revoked_at) && ltb now s.expires_at

-- auth.go
pub record LoginInput : Type 0 where
  pub tenant_code : String
  pub login_id : String
  pub password : String
  pub ip_address : String
  pub user_agent : String

pub record LoginOutput : Type 0 where
  pub session_id : Uuid
  pub user : User
