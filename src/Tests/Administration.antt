-- ===== src/Tests/Administration.antt =====
-- The sessions of administrators, and their requests about tenants.
use oidc_demo.Base.{true, ◌≡◌, ◌≤◌, refl, arith}
use oidc_demo.Model
use oidc_demo.Model.{Tenant}
use oidc_demo.World as Act
use oidc_demo.World.{World, ok, advance}
use oidc_demo.Http
use oidc_demo.Http.{text, json, object}
use oidc_demo.Quiet.{Ticked}
use oidc_demo.Store.Tenants
use oidc_demo.Store.Clients
use oidc_demo.Store.AdminSessions
use oidc_demo.Management.Errors
use oidc_demo.Management.Response
use oidc_demo.Management.Response.{parse_pagination}
use oidc_demo.Management.AdminAuth
use oidc_demo.Management.AdminService
use oidc_demo.Management.Admission.{no_credentials}
use oidc_demo.Management.Tenant
use oidc_demo.Management.TenantCode
use oidc_demo.Management.TenantCode.{tenant_code_matches, tenant_code_regex}
use oidc_demo.Management.Client
use oidc_demo.Management.RedirectUri
use oidc_demo.Management.Bounds.{parse_pagination_bounds}
use oidc_demo.Management.NewTenant.{AddsTenant}
use oidc_demo.Management.Pages.{IsPage, IsClientPage}
use oidc_demo.Server.Routes
use oidc_demo.Server.Routes.{Route, ManagementRoute, management, serve, stay, then}
use oidc_demo.Server.Reach.{admin_is_logged_out, holds}
use oidc_demo.Server.Admin.{IsGuarded, management_needs_admin}
use oidc_demo.Server.Logout.{logout_ends_session, logged_out_stays_out}
use oidc_demo.Server.NewTenant.{created_tenant_is_valid}
use oidc_demo.Server.Pages.{listed_tenants-IsPage, listed_clients-IsPage}
use oidc_demo.Tests.InMemory.{in_memory-GormLaws, in_memory-UpdatesSucceed}
use oidc_demo.Tests.Example.{env, config, start, root_session}
use oidc_demo.Tests.Runs.{below, list_request, tenant_request, shop_request, logged_out}

management_needs_admin_example :
    IsGuarded env config ManagementRoute.list_keys shop_request start
      (serve env config (management ManagementRoute.list_keys) shop_request start)
management_needs_admin_example =
    management_needs_admin env config in_memory-GormLaws ManagementRoute.list_keys shop_request
      start

is_logged_out : holds (admin_is_logged_out 13) logged_out ≡ true
unfolding holds
is_logged_out = refl

logged_out_stays_out_example :
    ((serve env config
        (management ManagementRoute.list_keys)
        shop_request
        (serve env config Route.healthz shop_request logged_out).1).0
      ≡ no_credentials)
    × Ticked
        (serve env config Route.healthz shop_request logged_out).1
        (serve env config
          (management ManagementRoute.list_keys)
          shop_request
          (serve env config Route.healthz shop_request logged_out).1).1
logged_out_stays_out_example =
    logged_out_stays_out env config in_memory-GormLaws ManagementRoute.list_keys shop_request "0d"
      13 logged_out (serve env config Route.healthz shop_request logged_out).1 refl refl
      is_logged_out (then stay Route.healthz shop_request)

logout_ends_session_example :
    ((serve env config Route.admin_logout shop_request start).0.status ≡ 204)
    × (holds (admin_is_logged_out 13) (serve env config Route.admin_logout shop_request start).1
        ≡ true)
logout_ends_session_example =
    logout_ends_session env in_memory-UpdatesSucceed in_memory-GormLaws config shop_request "0d" 13
      root_session start refl refl refl

parse_pagination_bounds_example :
    (1 ≤ (parse_pagination env list_request).limit)
    × ((parse_pagination env list_request).limit ≤ 100)
parse_pagination_bounds_example = parse_pagination_bounds env list_request

tenant_is_created :
    (serve env config (management ManagementRoute.create_tenant) tenant_request start).0.status
    ≡ 201
unfolding Routes.serve Routes.manage AdminAuth.require_admin AdminAuth.admit
    AdminService.validate_session AdminSessions.find_by_id Model.admin_session_is_valid
    Errors.error_json Errors.bad_request Errors.not_found Errors.conflict Errors.server_error
    Tenant.handle_create Tenant.check_new TenantCode.tenant_code_matches TenantCode.rest_matches
    Tenant.validate_lifetimes RedirectUri.raise_text Tenants.find_by_code Tenants.create_tenant
    Tenant.new_tenant Tenant.or_default Tenant.to_tenant_response Act.pure Act.raise Act.raise_if
    Act.or_raise Act.lift Act.ignore Act.map_err Act.time_now Act.rand_read Act.new_uuid
    Act.jwt_parse Act.first Act.find Act.first_desc Act.find_desc Act.updates Act.create Act.◌>>=◌
    Act.attempt Http.respond Act.save Act.find_asc Act.count Act.page_desc Act.delete
    Act.transaction
tenant_is_created = refl

created_tenant_is_valid_example :
    AddsTenant start
      (serve env config (management ManagementRoute.create_tenant) tenant_request start).1
created_tenant_is_valid_example =
    created_tenant_is_valid env config in_memory-GormLaws tenant_request start
      (below tenant_is_created (omega arith))

tenants_are_listed :
    (serve env config (management ManagementRoute.list_tenants) list_request start).0.status ≡ 200
unfolding Routes.serve Routes.manage AdminAuth.require_admin AdminAuth.admit
    AdminService.validate_session AdminSessions.find_by_id Model.admin_session_is_valid
    Errors.error_json Errors.bad_request Errors.not_found Errors.conflict Errors.server_error
    Tenant.handle_list Tenants.list Response.parse_pagination Response.limit_of Response.offset_of
    Response.list_response Tenant.to_tenant_response Act.pure Act.raise Act.raise_if Act.or_raise
    Act.lift Act.ignore Act.map_err Act.time_now Act.rand_read Act.new_uuid Act.jwt_parse Act.first
    Act.find Act.first_desc Act.find_desc Act.updates Act.create Act.◌>>=◌ Act.attempt Http.respond
    Act.save Act.find_asc Act.count Act.page_desc Act.delete Act.transaction
tenants_are_listed = refl

listed_tenants-IsPage_example :
    IsPage
      (λ (t : Tenant). t.created_at)
      (Tenant.to_tenant_response env)
      start.tenants
      (parse_pagination env list_request)
      (serve env config (management ManagementRoute.list_tenants) list_request start).0
    × Ticked start (serve env config (management ManagementRoute.list_tenants) list_request start).1
listed_tenants-IsPage_example =
    listed_tenants-IsPage env config in_memory-GormLaws list_request start
      (below tenants_are_listed (omega arith))

clients_are_listed :
    (serve env config (management ManagementRoute.list_clients) list_request start).0.status ≡ 200
unfolding Routes.serve Routes.manage AdminAuth.require_admin AdminAuth.admit
    AdminService.validate_session AdminSessions.find_by_id Model.admin_session_is_valid
    Errors.error_json Errors.bad_request Errors.not_found Errors.conflict Errors.server_error
    Client.handle_list Clients.list_by_tenant_id Tenants.find_by_id Response.parse_pagination
    Response.limit_of Response.offset_of Response.list_response Client.to_client_response Act.pure
    Act.raise Act.raise_if Act.or_raise Act.lift Act.ignore Act.map_err Act.time_now Act.rand_read
    Act.new_uuid Act.jwt_parse Act.first Act.find Act.first_desc Act.find_desc Act.updates
    Act.create Act.◌>>=◌ Act.attempt Http.respond Act.save Act.find_asc Act.count Act.page_desc
    Act.delete Act.transaction
clients_are_listed = refl

listed_clients-IsPage_example :
    IsClientPage env list_request start
      (serve env config (management ManagementRoute.list_clients) list_request start).0
listed_clients-IsPage_example =
    listed_clients-IsPage env config in_memory-GormLaws list_request start
      (below clients_are_listed (omega arith))
