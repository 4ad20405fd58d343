-- ===== src/Store/Users.antt =====
-- user_repository.go
use oidc_demo.Base.{ℕ, String, Option, some, ◌&&◌, ◌==◌, str_eq}
use oidc_demo.Model.{Uuid, Time, User}
use oidc_demo.World.{Env, M, users, first, updates}

module _ (env : Env) where
  unfoldable pub find_by_tenant_and_login_id : Uuid → String → M (Option User)
  find_by_tenant_and_login_id tenant_id login_id =
      first env users (λ u. u.tenant_id == tenant_id && str_eq u.login_id login_id)

  unfoldable pub find_by_id : Uuid → M (Option User)
  find_by_id id = first env users (λ u. u.id == id)

  -- A user carries its credentials, as they are preloaded.
  unfoldable pub find_by_id_with_credentials : Uuid → M (Option User)
  find_by_id_with_credentials id = first env users (λ u. u.id == id)

  unfoldable pub update_last_login_at : Uuid → Time → M ℕ
  update_last_login_at id t =
      updates env users (λ u. u.id == id)
        (λ at u. record u { last_login_at = some t; updated_at = at })
