-- ===== src/Model/Admin.antt =====
-- admin_user.go and admin_session.go
use oidc_demo.Base.{ℕ, String, Bool, Option, ltb, ◌&&◌, is_some, not}

pub record AdminUser : Type 0 where
  pub id : ℕ
  pub login_id : String
  pub password_hash : String
  pub name : String
  pub status : String
  pub last_login_at : Option ℕ
  pub created_at : ℕ
  pub updated_at : ℕ

pub record AdminSession : Type 0 where
  pub id : ℕ
  pub admin_user_id : ℕ
  pub ip_address : String
  pub user_agent : String
  pub expires_at : ℕ
  pub revoked_at : Option ℕ
  pub created_at : ℕ
  pub updated_at : ℕ

unfoldable pub admin_session_is_valid : ℕ → AdminSession → Bool
admin_session_is_valid now s = not (is_some s.revoked_at) && ltb now s.expires_at
