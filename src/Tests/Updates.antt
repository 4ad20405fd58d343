-- ===== src/Tests/Updates.antt =====
-- Updates of a tenant and of a client, from the state of the examples.
use oidc_demo.Base.{
  ℕ, ℤ, pos, ◌<◌, String, List, Option, none, some, ◌∷◌, [], All, ◌≡◌, ◌≢◌, refl, sym, subst, arith,
  str_eq, true, if◌then◌else◌,
}
use oidc_demo.Model
use oidc_demo.Model.{Tenant}
use oidc_demo.World as Act
use oidc_demo.Http
use oidc_demo.Http.{Request}
use oidc_demo.Store.Tenants
use oidc_demo.Store.AdminSessions
use oidc_demo.Management.Errors
use oidc_demo.Management.AdminAuth
use oidc_demo.Management.AdminService
use oidc_demo.Management.RedirectUri
use oidc_demo.Management.Tenant
use oidc_demo.Management.TenantCode
use oidc_demo.Management.TenantCode.{tenant_code_matches}
use oidc_demo.Management.TenantCode.Pattern.{tenant_code_matches-Describes}
use oidc_demo.Management.NewTenant.{IsValidTenant}
use oidc_demo.Base
use oidc_demo.Store.Clients
use oidc_demo.Management.Client
use oidc_demo.Management.CheckedClient.{IsSupported}
use oidc_demo.Server.UpdatedClient.{updated_clients-IsSupported}
use oidc_demo.Server.Routes
use oidc_demo.Server.Routes.{ManagementRoute, management, serve}
use oidc_demo.Server.UpdatedTenant.{updated_tenants_stay_valid}
use oidc_demo.Tests.InMemory.{in_memory-GormLaws}
use oidc_demo.Tests.Runs.{below}
use oidc_demo.Tests.Example.{env, config, start, acme, shop, request, fields_of}

abbrev new_lifetime : String → Option ℤ
new_lifetime name = if str_eq name "session_lifetime" then some (pos 600) else none

abbrev tenant_request : Request
tenant_request = record (request (("tenant_id", "01") ∷ [])) {
  bind = some (record (fields_of (("name", "Acme two") ∷ [])) { number = new_lifetime });
}

is_code : tenant_code_matches "acme" ≡ true
unfolding tenant_code_matches TenantCode.rest_matches
is_code = refl

has_name : acme.name ≢ ""
has_name e = cc

acme-IsValidTenant : IsValidTenant acme
acme-IsValidTenant = record {
  code = (tenant_code_matches-Describes "acme").0 is_code;
  name = (has_name, omega arith);
  session = omega arith;
  auth_code = omega arith;
  access_token = omega arith;
  refresh_token = omega arith;
  id_token = omega arith;
}

tenant_is_updated :
    (serve env config (management ManagementRoute.update_tenant) tenant_request start).0.status
    ≡ 200
unfolding Routes.serve Routes.manage AdminAuth.require_admin AdminAuth.admit
    AdminService.validate_session AdminSessions.find_by_id Model.admin_session_is_valid
    Errors.error_json Errors.bad_request Errors.not_found Errors.server_error Tenant.handle_update
    Tenant.validate_lifetimes Tenant.apply_name Tenant.apply_lifetimes RedirectUri.raise_text
    Tenants.find_by_id Tenants.update Tenant.or_default Tenant.to_tenant_response Act.pure Act.raise
    Act.raise_if Act.or_raise Act.lift Act.map_err Act.time_now Act.first Act.◌>>=◌ Http.respond
    Act.save
tenant_is_updated = refl

updated_tenants_stay_valid_example :
    All IsValidTenant
      (serve env config (management ManagementRoute.update_tenant) tenant_request start).1.tenants
updated_tenants_stay_valid_example =
    updated_tenants_stay_valid env config in_memory-GormLaws tenant_request start
      (acme-IsValidTenant, tt) (below tenant_is_updated (omega arith))

abbrev new_grants : String → Option (List String)
new_grants name = if str_eq name "grant_types" then some ("refresh_token" ∷ []) else none

abbrev client_update : Request
client_update = record (request (("id", "02") ∷ [])) {
  bind = some (record (fields_of (("name", "Shop two") ∷ [])) { list = new_grants });
}

client_is_updated :
    (serve env config (management ManagementRoute.update_client) client_update start).0.status ≡ 200
unfolding Routes.serve Routes.manage AdminAuth.require_admin AdminAuth.admit
    AdminService.validate_session AdminSessions.find_by_id Model.admin_session_is_valid
    Errors.error_json Errors.bad_request Errors.not_found Errors.server_error Client.handle_update
    Client.apply_update Client.apply_name Client.apply_grant_types Client.apply_response_types
    Client.apply_auth_method Client.apply_rest Client.check_each Clients.find_by_id Clients.update
    Client.to_client_response Base.contains Act.pure Act.raise Act.raise_if Act.or_raise Act.lift
    Act.map_err Act.time_now Act.first Act.◌>>=◌ Http.respond Act.save
client_is_updated = refl

shop_named : shop.name ≢ ""
shop_named e = cc

shop-IsSupported : IsSupported shop
unfolding Base.contains
shop-IsSupported = record {
  name = (shop_named, omega arith);
  grant_types = (refl, (refl, tt));
  response_types = (refl, tt);
  auth_method = refl;
}

updated_clients-IsSupported_example :
    All IsSupported
      (serve env config (management ManagementRoute.update_client) client_update start).1.clients
updated_clients-IsSupported_example =
    updated_clients-IsSupported env config in_memory-GormLaws client_update start
      (shop-IsSupported, tt) (below client_is_updated (omega arith))
