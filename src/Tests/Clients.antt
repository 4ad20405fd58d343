-- ===== src/Tests/Clients.antt =====
-- The requests of administrators about clients and their addresses, and the hashes of secrets.
use oidc_demo.Base
use oidc_demo.Base.{
  ℕ, String, true, false, ◌≡◌, ◌≢◌, ◌<◌, ◌≤◌, refl, Option, some, none, [], ◌∷◌, subst, sym, arith,
}
use oidc_demo.Model
use oidc_demo.Model.{Tenant}
use oidc_demo.World as Act
use oidc_demo.World.{World, ok, advance}
use oidc_demo.Http
use oidc_demo.Http.{text, json, object}
use oidc_demo.Crypto.Argon2id
use oidc_demo.Crypto.Argon2id.{hash_password, verify_password}
use oidc_demo.Crypto.Argon2id.Verified.{verify_password-hash_password}
use oidc_demo.Store.Tenants
use oidc_demo.Store.Clients
use oidc_demo.Store.AdminSessions
use oidc_demo.Store.RedirectUris
use oidc_demo.Store.PostLogoutRedirectUris
use oidc_demo.Oidc.Client as OidcClient
use oidc_demo.Oidc.Client.{authenticate_client}
use oidc_demo.Management.Errors
use oidc_demo.Management.Secret
use oidc_demo.Management.AdminAuth
use oidc_demo.Management.AdminService
use oidc_demo.Management.Client
use oidc_demo.Management.RedirectUri
use oidc_demo.Management.Addresses.{AddsUri, DeletesUri}
use oidc_demo.Management.CreatedClient.{AddsClient}
use oidc_demo.Server.Routes
use oidc_demo.Server.Routes.{Route, ManagementRoute, management, serve, stay, then}
use oidc_demo.Server.NewSecret.{OpensNew, created_client_authenticates}
use oidc_demo.Server.Clients.{added_uri_is_registered, deleted_uri_is_own, created_client_is_sound}
use oidc_demo.Server.Disabled.{deleted_client_is_refused}
use oidc_demo.Server.Secrets.{rotated_secret_authenticates, IsOpened}
use oidc_demo.Tests.InMemory.{in_memory-GormLaws, in_memory-FindsSucceed}
use oidc_demo.Tests.Example.{env, config, start, shop, code_request, replicate}
use oidc_demo.Tests.Hashes.{hash_env, hash_env-HashLaws}
use oidc_demo.Tests.Runs.{below, client_request, uri_request, uri_delete_request, shop_request}

uri_is_added :
    (serve env config (management ManagementRoute.create_redirect_uri) uri_request start).0.status
    ≡ 201
unfolding Routes.serve Routes.manage AdminAuth.require_admin AdminAuth.admit
    AdminService.validate_session AdminSessions.find_by_id Model.admin_session_is_valid
    Errors.error_json Errors.bad_request Errors.not_found Errors.conflict Errors.server_error
    RedirectUri.handle_create RedirectUri.raise_text RedirectUri.validate_redirect_uri
    RedirectUri.redirect_uri_response RedirectUris.create_uri Clients.find_by_id Act.pure Act.raise
    Act.raise_if Act.or_raise Act.lift Act.ignore Act.map_err Act.time_now Act.rand_read
    Act.new_uuid Act.jwt_parse Act.first Act.find Act.first_desc Act.find_desc Act.updates
    Act.create Act.◌>>=◌ Act.attempt Http.respond Act.save Act.find_asc Act.count Act.page_desc
    Act.delete Act.transaction
uri_is_added = refl

added_uri_is_registered_example :
    AddsUri env uri_request start
      (serve env config (management ManagementRoute.create_redirect_uri) uri_request start).1
added_uri_is_registered_example =
    added_uri_is_registered env config in_memory-GormLaws uri_request start
      (below uri_is_added (omega arith))

uri_is_deleted :
    (serve env config
      (management ManagementRoute.delete_redirect_uri)
      uri_delete_request
      start).0.status
    ≡ 204
unfolding Routes.serve Routes.manage AdminAuth.require_admin AdminAuth.admit
    AdminService.validate_session AdminSessions.find_by_id Model.admin_session_is_valid
    Errors.error_json Errors.bad_request Errors.not_found Errors.conflict Errors.server_error
    RedirectUri.handle_delete RedirectUris.find_by_id RedirectUris.delete_uri Act.pure Act.raise
    Act.raise_if Act.or_raise Act.lift Act.ignore Act.map_err Act.time_now Act.rand_read
    Act.new_uuid Act.jwt_parse Act.first Act.find Act.first_desc Act.find_desc Act.updates
    Act.create Act.◌>>=◌ Act.attempt Http.respond Act.save Act.find_asc Act.count Act.page_desc
    Act.delete Act.transaction
uri_is_deleted = refl

deleted_uri_is_own_example :
    DeletesUri env uri_delete_request start
      (serve env config (management ManagementRoute.delete_redirect_uri) uri_delete_request start).1
deleted_uri_is_own_example =
    deleted_uri_is_own env config in_memory-GormLaws uri_delete_request start
      (below uri_is_deleted (omega arith))

client_is_created :
    (serve hash_env config (management ManagementRoute.create_client) client_request start).0.status
    ≡ 201
unfolding Routes.serve Routes.manage AdminAuth.require_admin AdminAuth.admit
    AdminService.validate_session AdminSessions.find_by_id Model.admin_session_is_valid
    Errors.error_json Errors.bad_request Errors.not_found Errors.conflict Errors.server_error
    Secret.generate_client_id Secret.generate_client_secret Argon2id.hash_password Argon2id.encode
    Argon2id.id_key Client.handle_create Client.check_new Client.check_name Client.check_grant_types
    Client.check_response_types Client.check_required Client.check_each Client.check_auth_method
    Client.check_uris RedirectUri.raise_text RedirectUri.validate_redirect_uri Base.contains
    Tenants.find_by_id Clients.create_client Clients.create_redirect_uris
    Clients.create_post_logout_redirect_uris RedirectUris.create_uri
    PostLogoutRedirectUris.create_uri Client.new_client Client.to_client_response Act.pure Act.raise
    Act.raise_if Act.or_raise Act.lift Act.ignore Act.map_err Act.time_now Act.rand_read
    Act.new_uuid Act.jwt_parse Act.first Act.find Act.first_desc Act.find_desc Act.updates
    Act.create Act.◌>>=◌ Act.attempt Http.respond Act.save Act.find_asc Act.count Act.page_desc
    Act.delete Act.transaction
client_is_created = refl

created_client_is_sound_example :
    AddsClient hash_env client_request start
      (serve hash_env config (management ManagementRoute.create_client) client_request start).0
      (serve hash_env config (management ManagementRoute.create_client) client_request start).1
created_client_is_sound_example =
    created_client_is_sound hash_env config in_memory-GormLaws hash_env-HashLaws client_request
      start (below client_is_created (omega arith))

created_client_authenticates_example :
    OpensNew hash_env
      (serve hash_env config (management ManagementRoute.create_client) client_request start).0
      (serve hash_env config (management ManagementRoute.create_client) client_request start).1
created_client_authenticates_example =
    created_client_authenticates hash_env config in_memory-GormLaws in_memory-FindsSucceed
      hash_env-HashLaws client_request start (below client_is_created (omega arith))

client_is_deleted :
    (serve env config (management ManagementRoute.delete_client) shop_request start).0.status ≡ 204
unfolding Routes.serve Routes.manage AdminAuth.require_admin AdminAuth.admit
    AdminService.validate_session AdminSessions.find_by_id Model.admin_session_is_valid
    Errors.error_json Errors.bad_request Errors.not_found Errors.conflict Errors.server_error
    Client.handle_delete Clients.find_by_id Clients.soft_delete Act.pure Act.raise Act.raise_if
    Act.or_raise Act.lift Act.ignore Act.map_err Act.time_now Act.rand_read Act.new_uuid
    Act.jwt_parse Act.first Act.find Act.first_desc Act.find_desc Act.updates Act.create Act.◌>>=◌
    Act.attempt Http.respond Act.save Act.find_asc Act.count Act.page_desc Act.delete
    Act.transaction
client_is_deleted = refl

shop_is_found :
    Base.find?
      (λ x. Base.str_eq x.client_id (OidcClient.extract_client_credentials code_request).0)
      start.clients
    ≡ some shop
unfolding OidcClient.extract_client_credentials
shop_is_found = refl

deleted_client_is_refused_example :
    (serve env config Route.token code_request
      (serve env config (management ManagementRoute.delete_client) shop_request start).1).0.status
    ≢ 200
deleted_client_is_refused_example =
    deleted_client_is_refused env config in_memory-GormLaws shop_request code_request shop start
      refl shop_is_found (below client_is_deleted (omega arith))

secret_is_rotated :
    (serve hash_env config (management ManagementRoute.rotate_secret) shop_request start).0.status
    ≡ 200
unfolding Routes.serve Routes.manage AdminAuth.require_admin AdminAuth.admit
    AdminService.validate_session AdminSessions.find_by_id Model.admin_session_is_valid
    Errors.error_json Errors.bad_request Errors.not_found Errors.conflict Errors.server_error
    Secret.generate_client_id Secret.generate_client_secret Argon2id.hash_password Argon2id.encode
    Argon2id.id_key Client.handle_rotate_secret Clients.find_by_id Clients.update_secret_hash
    Act.pure Act.raise Act.raise_if Act.or_raise Act.lift Act.ignore Act.map_err Act.time_now
    Act.rand_read Act.new_uuid Act.jwt_parse Act.first Act.find Act.first_desc Act.find_desc
    Act.updates Act.create Act.◌>>=◌ Act.attempt Http.respond Act.save Act.find_asc Act.count
    Act.page_desc Act.delete Act.transaction
secret_is_rotated = refl

rotated_secret_authenticates_example :
    IsOpened hash_env shop
      (serve hash_env config (management ManagementRoute.rotate_secret) shop_request start).0
      (serve hash_env config (management ManagementRoute.rotate_secret) shop_request start).1
rotated_secret_authenticates_example =
    rotated_secret_authenticates hash_env config in_memory-GormLaws in_memory-FindsSucceed
      hash_env-HashLaws shop_request shop start refl refl refl refl
      (below secret_is_rotated (omega arith))

abbrev hashed : String
hashed =
    Argon2id.encode hash_env (replicate 16 20) (Argon2id.id_key hash_env "pw" (replicate 16 20))

password_is_hashed :
    hash_password hash_env "pw" start ≡ (ok hashed, (hash_password hash_env "pw" start).1)
unfolding Argon2id.hash_password Act.pure Act.raise Act.raise_if Act.or_raise Act.lift Act.ignore
    Act.map_err Act.time_now Act.rand_read Act.new_uuid Act.jwt_parse Act.first Act.find
    Act.first_desc Act.find_desc Act.updates Act.create Act.◌>>=◌ Act.attempt Http.respond Act.save
    Act.find_asc Act.count Act.page_desc Act.delete Act.transaction
password_is_hashed = refl

verify_password-hash_password_example : verify_password hash_env "pw" hashed ≡ some true
verify_password-hash_password_example =
    verify_password-hash_password hash_env hash_env-HashLaws "pw" hashed start
      (hash_password hash_env "pw" start).1 password_is_hashed
