-- ===== src/Management/AdminService.antt =====
-- auth_service.go: the administrators' sessions.
use oidc_demo.Base.{ℕ, ◌+◌, String, none, str_eq, not}
use oidc_demo.Crypto.Argon2id.{verify_password}
use oidc_demo.Model.{Uuid, Time, AdminUser, AdminSession, admin_session_is_valid}
use oidc_demo.Model.Time.{duration}
use oidc_demo.World.{
  Env, M, internal, admin_invalid_credentials, admin_session_not_found, admin_session_expired,
  or_raise, raise_if, ignore, pure, time_now, ◌>>=◌, ◌>>◌,
}
use oidc_demo.Store.AdminUsers
use oidc_demo.Store.AdminSessions

-- `8 * time.Hour`
abbrev pub admin_session_lifetime : ℕ
admin_session_lifetime = 28800

-- The row of a new session.
abbrev pub new_session : Uuid → String → String → Time → Uuid → Time → AdminSession
new_session user_id ip_address user_agent expires_at id at = record {
  id = id;
  admin_user_id = user_id;
  ip_address = ip_address;
  user_agent = user_agent;
  expires_at = expires_at;
  revoked_at = none;
  created_at = at;
  updated_at = at;
}

module _ (env : Env) where
  unfoldable pub check_admin : String → String → M AdminUser
  check_admin login_id password = do
    found ← AdminUsers.find_by_login_id env login_id
    user ← or_raise found admin_invalid_credentials
    raise_if (not (str_eq user.status "active")) admin_invalid_credentials
    match ← or_raise (verify_password env password user.password_hash) internal
    raise_if (not match) admin_invalid_credentials
    pure user

  unfoldable pub login : String → String → String → String → M (AdminSession × AdminUser)
  unfolding check_admin
  login login_id password ip_address user_agent = do
    user ← check_admin login_id password
    now ← time_now env
    session ←
        AdminSessions.create_session env
          (new_session user.id ip_address user_agent (now + duration admin_session_lifetime))
    last ← time_now env
    ignore (AdminUsers.update_last_login_at env user.id last)
    pure (session, user)

  unfoldable pub revoke_session : Uuid → M ℕ
  revoke_session session_id = AdminSessions.revoke env session_id

  unfoldable pub validate_session : Uuid → M AdminSession
  validate_session session_id = do
    found ← AdminSessions.find_by_id env session_id
    session ← or_raise found admin_session_not_found
    now ← time_now env
    raise_if (not (admin_session_is_valid now session)) admin_session_expired
    pure session
