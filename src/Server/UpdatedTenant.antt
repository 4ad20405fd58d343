-- ===== src/Server/UpdatedTenant.antt =====
-- PUT /management/v1/tenants/:tenant_id, from the request to the table.
use oidc_demo.Base.{ℕ, ◌<◌, String, Option, none, some, All, subst}
use oidc_demo.Gorm.{GormLaws}
use oidc_demo.Model.{Tenant as Row}
use oidc_demo.World.{World, Env}
use oidc_demo.Http.{Request}
use oidc_demo.Answers.{Answers}
use oidc_demo.Oidc.Config.{Config}
use oidc_demo.Management.Tenant
use oidc_demo.Management.NewTenant.{IsValidTenant}
use oidc_demo.Management.UpdatedTenant.{
  UpdatesTenant, UpdatesTenant-AllValid, ensures-update_tenant,
}
use oidc_demo.Server.Admin.{IsRefusal, refusal_rules, management_success}
use oidc_demo.Server.Routes.{ManagementRoute, management, manage, serve}

refuses-apply_name :
    (o : Option String) (t : Row) (w : World) → Answers (Tenant.apply_name o t) w IsRefusal
unfolding Tenant.apply_name
refuses-apply_name none t w = search refusal_rules depth 20
refuses-apply_name (some name) t w = search refusal_rules depth 20

refuses-update :
    (env : Env) (r : Request) (w : World) → Answers (Tenant.handle_update env r) w IsRefusal
unfolding Tenant.handle_update
refuses-update env r w = search (refusal_rules, refuses-apply_name) depth 20

UpdatesTenant-after :
    (env : Env) (r : Request) (w : World) (n : ℕ) (v : World)
    → UpdatesTenant env r (record w { tick = n }) v
    → UpdatesTenant env r w v
UpdatesTenant-after env r w n v k = record {
  id = k.id;
  fields = k.fields;
  old = k.old;
  now = k.now;
  is_named = k.is_named;
  has_body = k.has_body;
  is_found = k.is_found;
  takes = k.takes;
  tick = k.tick;
  rest = k.rest;
}

module _ (env : Env) (config : Config) (laws : GormLaws env.gorm) where
  pub updated_tenant_takes_fields :
      (r : Request) (w : World)
      → (serve env config (management ManagementRoute.update_tenant) r w).0.status < 400
      → UpdatesTenant env r w (serve env config (management ManagementRoute.update_tenant) r w).1
  unfolding manage
  updated_tenant_takes_fields r w h =
      management_success env config laws ManagementRoute.update_tenant r w (refuses-update env r)
        (λ u (n, same). record {
          at = λ a v run. UpdatesTenant-after env r w n v (
              subst (λ x. UpdatesTenant env r x v) same
                ((ensures-update_tenant env laws r u).at a v run));
        })
        h

  -- If all tenants have a code of the regular expression, a name of 1 to 255 bytes and positive
  -- lifetimes, and the request to update one is answered with a status below 400, all tenants have them
  -- after it.
  pub updated_tenants_stay_valid :
      (r : Request) (w : World)
      → All IsValidTenant w.tenants
      → (serve env config (management ManagementRoute.update_tenant) r w).0.status < 400
      → All IsValidTenant
          (serve env config (management ManagementRoute.update_tenant) r w).1.tenants
  updated_tenants_stay_valid r w all h =
      UpdatesTenant-AllValid env r w _ (updated_tenant_takes_fields r w h) all
