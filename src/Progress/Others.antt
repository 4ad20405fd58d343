-- ===== src/Progress/Others.antt =====
-- The repositories whose tables hold nothing that is revoked: every write is `Later`.
use oidc_demo.Base.{String, Option, some, none, refl}
use oidc_demo.Gorm.{GormLaws}
use oidc_demo.Model.{Uuid, Time, Tenant, Client, IdToken, SignKey}
use oidc_demo.World.{
  Env, tenants, clients, redirect_uris, post_logout_redirect_uris, users, id_tokens, sign_keys,
}
use oidc_demo.Progress.Rules.{Grows, Grows-bind, Grows-time_now, Grows-pure}
use oidc_demo.Progress.Order.{Later-same}
use oidc_demo.Progress.Statements.{
  Grows-updates, Grows-save, Grows-create, Grows-first, Grows-find, Grows-first_desc,
  Grows-find_desc,
}
use oidc_demo.Store.Tenants
use oidc_demo.Store.Clients
use oidc_demo.Store.Users
use oidc_demo.Store.IdTokens
use oidc_demo.Store.SignKeys

module _ (env : Env) where
  pub Grows-tenant_by_code : (code : String) → Grows (Tenants.find_by_code env code)
  unfolding Tenants.find_by_code
  Grows-tenant_by_code code = Grows-first env tenants _

  pub Grows-tenant_by_id : (id : Uuid) → Grows (Tenants.find_by_id env id)
  unfolding Tenants.find_by_id
  Grows-tenant_by_id id = Grows-first env tenants _

  pub Grows-client_by_client_id : (key : String) → Grows (Clients.find_by_client_id env key)
  unfolding Clients.find_by_client_id
  Grows-client_by_client_id key = Grows-first env clients _

  pub Grows-client_by_id : (id : Uuid) → Grows (Clients.find_by_id env id)
  unfolding Clients.find_by_id
  Grows-client_by_id id = Grows-first env clients _

  Grows-preload_redirect_uris : (o : Option Client) → Grows (Clients.preload_redirect_uris env o)
  unfolding Clients.preload_redirect_uris
  Grows-preload_redirect_uris none = Grows-pure none
  Grows-preload_redirect_uris (some c) =
      Grows-bind (Grows-find env post_logout_redirect_uris _)
        λ posts. Grows-bind (Grows-find env redirect_uris _) λ uris. Grows-pure _

  pub Grows-client_with_redirect_uris :
      (key : String) → Grows (Clients.find_by_client_id_with_redirect_uris env key)
  unfolding Clients.find_by_client_id_with_redirect_uris
  Grows-client_with_redirect_uris key =
      Grows-bind (Grows-first env clients _) Grows-preload_redirect_uris

  pub Grows-user_by_login_id :
      (tenant : Uuid) → (key : String) → Grows (Users.find_by_tenant_and_login_id env tenant key)
  unfolding Users.find_by_tenant_and_login_id
  Grows-user_by_login_id tenant key = Grows-first env users _

  pub Grows-user_by_id : (id : Uuid) → Grows (Users.find_by_id env id)
  unfolding Users.find_by_id
  Grows-user_by_id id = Grows-first env users _

  pub Grows-key_active : Grows (SignKeys.find_active env)
  unfolding SignKeys.find_active
  Grows-key_active = Grows-first_desc env sign_keys _ _

  pub Grows-key_all_active : Grows (SignKeys.find_all_active env)
  unfolding SignKeys.find_all_active
  Grows-key_all_active = Grows-find_desc env sign_keys _ _

  pub Grows-key_all : Grows (SignKeys.find_all env)
  unfolding SignKeys.find_all
  Grows-key_all = Grows-find_desc env sign_keys _ _

  pub Grows-key_by_kid : (kid : String) → Grows (SignKeys.find_by_kid env kid)
  unfolding SignKeys.find_by_kid
  Grows-key_by_kid kid = Grows-first env sign_keys _

  module _ (laws : GormLaws env.gorm) where
    pub Grows-create_tenant : (mk : Uuid → Time → Tenant) → Grows (Tenants.create_tenant env mk)
    unfolding Tenants.create_tenant
    Grows-create_tenant mk =
        Grows-create env tenants laws _ mk
          λ w id at rows fresh i. Later-same refl refl refl refl refl

    pub Grows-update_tenant : (row : Tenant) → Grows (Tenants.update env row)
    unfolding Tenants.update
    Grows-update_tenant row =
        Grows-bind (Grows-save env tenants laws _ _ λ w at. Later-same refl refl refl refl refl)
          λ at. Grows-pure _

    pub Grows-update_client : (row : Client) → Grows (Clients.update env row)
    unfolding Clients.update
    Grows-update_client row =
        Grows-bind (Grows-save env clients laws _ _ λ w at. Later-same refl refl refl refl refl)
          λ at. Grows-pure _

    pub Grows-update_secret_hash :
        (id : Uuid) → (hash : String) → Grows (Clients.update_secret_hash env id hash)
    unfolding Clients.update_secret_hash
    Grows-update_secret_hash id hash =
        Grows-updates env clients laws _ _ λ w at. Later-same refl refl refl refl refl

    pub Grows-soft_delete : (id : Uuid) → Grows (Clients.soft_delete env id)
    unfolding Clients.soft_delete
    Grows-soft_delete id =
        Grows-updates env clients laws _ _ λ w at. Later-same refl refl refl refl refl

    pub Grows-update_last_login_at :
        (id : Uuid) → (t : Time) → Grows (Users.update_last_login_at env id t)
    unfolding Users.update_last_login_at
    Grows-update_last_login_at id t =
        Grows-updates env users laws _ _ λ w at. Later-same refl refl refl refl refl

    pub Grows-create_id_token : (mk : Uuid → Time → IdToken) → Grows (IdTokens.create_token env mk)
    unfolding IdTokens.create_token
    Grows-create_id_token mk =
        Grows-create env id_tokens laws _ mk
          λ w id at rows fresh i. Later-same refl refl refl refl refl

    pub Grows-create_key : (mk : Uuid → Time → SignKey) → Grows (SignKeys.create_key env mk)
    unfolding SignKeys.create_key
    Grows-create_key mk =
        Grows-create env sign_keys laws _ mk
          λ w id at rows fresh i. Later-same refl refl refl refl refl

    pub Grows-deactivate : (kid : String) → Grows (SignKeys.deactivate env kid)
    unfolding SignKeys.deactivate
    Grows-deactivate kid =
        Grows-bind (Grows-time_now env)
          λ now. Grows-updates env sign_keys laws _ _ λ w at. Later-same refl refl refl refl refl

    pub Grows-deactivate_all : Grows (SignKeys.deactivate_all_active env)
    unfolding SignKeys.deactivate_all_active
    Grows-deactivate_all =
        Grows-bind (Grows-time_now env)
          λ now. Grows-updates env sign_keys laws _ _ λ w at. Later-same refl refl refl refl refl

pub ruleset others_rules = (
  Grows-tenant_by_code, Grows-tenant_by_id, Grows-client_by_client_id, Grows-client_by_id,
  Grows-client_with_redirect_uris, Grows-user_by_login_id, Grows-user_by_id, Grows-key_active,
  Grows-key_all_active, Grows-key_all, Grows-key_by_kid, Grows-create_tenant, Grows-update_tenant,
  Grows-update_client, Grows-update_secret_hash, Grows-soft_delete, Grows-update_last_login_at,
  Grows-create_id_token, Grows-create_key, Grows-deactivate, Grows-deactivate_all,
)
