-- ===== src/Server/Pages.antt =====
-- The lists of the management API, from the request to the response.
use oidc_demo.Base.{◌<◌, subst}
use oidc_demo.Gorm.{GormLaws}
use oidc_demo.Model.{Tenant}
use oidc_demo.World.{World, Env}
use oidc_demo.Http.{Request}
use oidc_demo.Answers.{Answers}
use oidc_demo.Quiet.{Ticked, Ticked-trans}
use oidc_demo.Oidc.Config.{Config}
use oidc_demo.Management.Response.{parse_pagination}
use oidc_demo.Management.Tenant
use oidc_demo.Management.Client
use oidc_demo.Management.Pages.{IsPage, IsClientPage, ensures-list_tenants, ensures-list_clients}
use oidc_demo.Server.Admin.{IsRefusal, refusal_rules, management_success}
use oidc_demo.Server.Routes.{ManagementRoute, management, manage, serve}

refuses-list_tenants :
    (env : Env) (r : Request) (w : World) → Answers (Tenant.handle_list env r) w IsRefusal
unfolding Tenant.handle_list
refuses-list_tenants env r w = search refusal_rules depth 20

refuses-list_clients :
    (env : Env) (r : Request) (w : World) → Answers (Client.handle_list env r) w IsRefusal
unfolding Client.handle_list
refuses-list_clients env r w = search refusal_rules depth 20

module _ (env : Env) (config : Config) (laws : GormLaws env.gorm) where
  -- If the list of tenants is answered with a status below 400, the response shows at most a hundred of
  -- the tenants: those that the limit and the offset of the query cut out of all of them, put in order
  -- from the newest; it counts them all, and no table has changed.
  pub listed_tenants-IsPage :
      (r : Request) (w : World)
      → (serve env config (management ManagementRoute.list_tenants) r w).0.status < 400
      → IsPage
          (λ (t : Tenant). t.created_at)
          (Tenant.to_tenant_response env)
          w.tenants
          (parse_pagination env r)
          (serve env config (management ManagementRoute.list_tenants) r w).0
        × Ticked w (serve env config (management ManagementRoute.list_tenants) r w).1
  unfolding manage
  listed_tenants-IsPage r w h =
      management_success env config laws ManagementRoute.list_tenants r w
        {Q = λ a v.
          IsPage (λ (t : Tenant). t.created_at) (Tenant.to_tenant_response env) w.tenants
            (parse_pagination env r) a
          × Ticked w v}
        (refuses-list_tenants env r)
        (λ u (n, same). record {
          at = λ a v run.
              let (shown, e) = (ensures-list_tenants env laws r u).at a v run in
              (
                subst
                    (λ (x : World).
                      IsPage (λ (t : Tenant). t.created_at) (Tenant.to_tenant_response env)
                        x.tenants (parse_pagination env r) a)
                    same shown,
                Ticked-trans w (n, same) (_, e),
              );
        })
        h

  -- If the list of the clients of a tenant is answered with a status below 400, the response shows at
  -- most a hundred of that tenant's clients: those that the limit and the offset of the query cut out
  -- of all of them, put in order from the newest; and it counts them all.
  pub listed_clients-IsPage :
      (r : Request) (w : World)
      → (serve env config (management ManagementRoute.list_clients) r w).0.status < 400
      → IsClientPage env r w (serve env config (management ManagementRoute.list_clients) r w).0
  unfolding manage
  listed_clients-IsPage r w h =
      management_success env config laws ManagementRoute.list_clients r w
        {Q = λ a v. IsClientPage env r w a} (refuses-list_clients env r)
        (λ u (n, same). record {
          at = λ a v run.
              subst (λ (x : World). IsClientPage env r x a) same
                ((ensures-list_clients env laws r u).at a v run);
        })
        h
