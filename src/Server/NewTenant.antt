-- ===== src/Server/NewTenant.antt =====
-- POST /management/v1/tenants, from the request to the table.
use oidc_demo.Base.{◌<◌, subst}
use oidc_demo.Gorm.{GormLaws}
use oidc_demo.World.{World, Env}
use oidc_demo.Http.{Request, Fields}
use oidc_demo.Answers.{Answers}
use oidc_demo.Quiet.{Ticked}
use oidc_demo.Oidc.Config.{Config}
use oidc_demo.Management.Tenant
use oidc_demo.Management.NewTenant.{AddsTenant, ensures-create_tenant}
use oidc_demo.Server.Admin.{IsRefusal, refusal_rules, management_success}
use oidc_demo.Server.Routes.{ManagementRoute, management, manage, serve}

refuses-check_new : (fields : Fields) (w : World) → Answers (Tenant.check_new fields) w IsRefusal
unfolding Tenant.check_new
refuses-check_new fields w = search refusal_rules depth 20

refuses-create :
    (env : Env) (r : Request) (w : World) → Answers (Tenant.handle_create env r) w IsRefusal
unfolding Tenant.handle_create
refuses-create env r w = search (refusal_rules, refuses-check_new) depth 20

AddsTenant-after : (w u v : World) → Ticked w u → AddsTenant u v → AddsTenant w v
AddsTenant-after w u v (n, same) h =
    let k : AddsTenant (record w { tick = n }) v = subst (λ x. AddsTenant x v) same h in
    record {
      tenant = k.tenant;
      tick = k.tick;
      rows = k.rows;
      is_valid = k.is_valid;
      is_new = k.is_new;
      is_added = k.is_added;
      rest = k.rest;
    }

module _ (env : Env) (config : Config) (laws : GormLaws env.gorm) where
  -- If the request to create a tenant is answered with a status below 400, one tenant is added and
  -- nothing else has changed: its code is one that the regular expression describes and that no tenant
  -- had, its name has 1 to 255 bytes, and its five lifetimes are positive.
  pub created_tenant_is_valid :
      (r : Request) (w : World)
      → (serve env config (management ManagementRoute.create_tenant) r w).0.status < 400
      → AddsTenant w (serve env config (management ManagementRoute.create_tenant) r w).1
  unfolding manage
  created_tenant_is_valid r w h =
      management_success env config laws ManagementRoute.create_tenant r w (refuses-create env r)
        (λ u ticked. record {
          at = λ a v run.
              AddsTenant-after w u v ticked ((ensures-create_tenant env laws r u).at a v run);
        })
        h
