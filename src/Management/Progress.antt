-- ===== src/Management/Progress.antt =====
-- No administrator's request takes back the use of a code or a revocation.
use oidc_demo.Base.{ℕ, String}
use oidc_demo.Gorm.{GormLaws}
use oidc_demo.Env.{Env}
use oidc_demo.Model.{Uuid}
use oidc_demo.World.{M}
use oidc_demo.Http.{Request}
use oidc_demo.Progress.{
  Grows, Grows-revoke_access, Grows-revoke_refresh, grows_rules, codes_rules, tokens_rules,
  others_rules,
}
use oidc_demo.Jwt.Progress.{jwt_rules}
use oidc_demo.Oidc.Config.{Config}
use oidc_demo.Store.Sessions
use oidc_demo.Store.AccessTokens
use oidc_demo.Store.RefreshTokens
use oidc_demo.Management.Incident.{revoke_each, revoke_all, revoke_tenant, revoke_user}
use oidc_demo.Management.Key.{list_keys, deactivate_key, handle_deactivate, rotate}

Grows-revoke_each : {s a r : M ℕ} → Grows s → Grows a → Grows r → Grows (revoke_each s a r)
unfolding revoke_each
Grows-revoke_each gs ga gr = search grows_rules depth 14

module _ (env : Env) where
  pub Grows-list_keys : Grows (list_keys env)
  unfolding list_keys
  Grows-list_keys = search (grows_rules, others_rules) depth 14

  module _ (laws : GormLaws env.gorm) where
    -- The subquery reads the sessions of the moment.
    Grows-access_by_tenant : (id : Uuid) → Grows (AccessTokens.revoke_by_tenant_id env id)
    unfolding AccessTokens.revoke_by_tenant_id
    Grows-access_by_tenant id = record { at = λ w. (Grows-revoke_access env laws _).at w }

    Grows-refresh_by_tenant : (id : Uuid) → Grows (RefreshTokens.revoke_by_tenant_id env id)
    unfolding RefreshTokens.revoke_by_tenant_id
    Grows-refresh_by_tenant id = record { at = λ w. (Grows-revoke_refresh env laws _).at w }

    Grows-access_by_user : (id : Uuid) → Grows (AccessTokens.revoke_by_user_id env id)
    unfolding AccessTokens.revoke_by_user_id
    Grows-access_by_user id = record { at = λ w. (Grows-revoke_access env laws _).at w }

    Grows-refresh_by_user : (id : Uuid) → Grows (RefreshTokens.revoke_by_user_id env id)
    unfolding RefreshTokens.revoke_by_user_id
    Grows-refresh_by_user id = record { at = λ w. (Grows-revoke_refresh env laws _).at w }

    pub Grows-revoke_tenant : (r : Request) → Grows (revoke_tenant env r)
    unfolding revoke_tenant Sessions.revoke_by_tenant_id
    Grows-revoke_tenant r =
        search
          (
            grows_rules, codes_rules, Grows-revoke_each, Grows-access_by_tenant,
            Grows-refresh_by_tenant,
          )
          depth 14

    pub Grows-revoke_user : (r : Request) → Grows (revoke_user env r)
    unfolding revoke_user Sessions.revoke_by_user_id
    Grows-revoke_user r =
        search
          (grows_rules, codes_rules, Grows-revoke_each, Grows-access_by_user, Grows-refresh_by_user)
          depth 14

    pub Grows-revoke_all : Grows (revoke_all env)
    unfolding revoke_all Sessions.revoke_all AccessTokens.revoke_all RefreshTokens.revoke_all
    Grows-revoke_all = search (Grows-revoke_each, codes_rules, tokens_rules) depth 14

    pub Grows-deactivate_key : (kid : String) → Grows (deactivate_key env kid)
    unfolding deactivate_key
    Grows-deactivate_key kid = search (grows_rules, others_rules) depth 14

    pub Grows-handle_deactivate : (r : Request) → Grows (handle_deactivate env r)
    unfolding handle_deactivate
    Grows-handle_deactivate r = Grows-deactivate_key (r.param "kid")

    pub Grows-rotate : (config : Config) → Grows (rotate env config)
    unfolding rotate
    Grows-rotate config = search (grows_rules, jwt_rules) depth 14
