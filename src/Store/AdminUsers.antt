-- ===== src/Store/AdminUsers.antt =====
-- admin_user_repository.go
use oidc_demo.Base.{ℕ, String, Option, some, ◌==◌, str_eq}
use oidc_demo.Model.{Uuid, Time, AdminUser}
use oidc_demo.World.{Env, M, admin_users, first, updates}

module _ (env : Env) where
  unfoldable pub find_by_login_id : String → M (Option AdminUser)
  find_by_login_id login_id = first env admin_users (λ u. str_eq u.login_id login_id)

  unfoldable pub find_by_id : Uuid → M (Option AdminUser)
  find_by_id id = first env admin_users (λ u. u.id == id)

  unfoldable pub update_last_login_at : Uuid → Time → M ℕ
  update_last_login_at id t =
      updates env admin_users (λ u. u.id == id)
        (λ at u. record u { last_login_at = some t; updated_at = at })
