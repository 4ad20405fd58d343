-- ===== src/Management/AdminProgress.antt =====
-- No request to the tenants, the clients, their addresses and the administrators' sessions takes back
-- the use of a code or a revocation.
use oidc_demo.Base.{ℕ, String, Bool, Option, some, none, List, [], ◌∷◌}
use oidc_demo.Gorm.{GormLaws}
use oidc_demo.Env.{Env}
use oidc_demo.Model.{Uuid, Tenant, Client}
use oidc_demo.World.{Exec}
use oidc_demo.Http.{Request, Response, Fields}
use oidc_demo.Progress.{
  Grows, Grows-bind, Grows-pure, Grows-raise, Grows-raise_if, grows_rules, others_rules,
  admins_rules,
}
use oidc_demo.Oidc.Config.{Config}
use oidc_demo.Crypto.Argon2id.{hash_password}
use oidc_demo.Management.Secret.{generate_client_id, generate_client_secret}
use oidc_demo.Management.RedirectUri
use oidc_demo.Management.RedirectUri.{raise_text}
use oidc_demo.Management.AdminService
use oidc_demo.Management.AdminAuth.{
  handle_login, handle_me, handle_logout, revoke_cookie, revoke_parsed, admit, require_admin,
}
use oidc_demo.Management.Tenant
use oidc_demo.Management.Client

Grows-raise_text : (o : Option String) → Grows (raise_text o)
unfolding raise_text
Grows-raise_text none = Grows-pure tt
Grows-raise_text (some text) = Grows-raise _

Grows-check_tenant : (fields : Fields) → Grows (Tenant.check_new fields)
unfolding Tenant.check_new
Grows-check_tenant fields = search (grows_rules, Grows-raise_text) depth 14

Grows-apply_tenant_name : (o : Option String) (t : Tenant) → Grows (Tenant.apply_name o t)
unfolding Tenant.apply_name
Grows-apply_tenant_name none t = Grows-pure t
Grows-apply_tenant_name (some name) t = search grows_rules depth 14

Grows-check_each :
    (valid : String → Bool) (message : String) (xs : List String)
    → Grows (Client.check_each valid message xs)
unfolding Client.check_each
Grows-check_each valid message [] = Grows-pure tt
Grows-check_each valid message (x ∷ xs) =
    Grows-bind (Grows-raise_if _ _) λ u. Grows-check_each valid message xs

Grows-apply_name : (o : Option String) (c : Client) → Grows (Client.apply_name o c)
unfolding Client.apply_name
Grows-apply_name none c = Grows-pure c
Grows-apply_name (some name) c = search grows_rules depth 14

Grows-apply_grant_types :
    (o : Option (List String)) (c : Client) → Grows (Client.apply_grant_types o c)
unfolding Client.apply_grant_types
Grows-apply_grant_types none c = Grows-pure c
Grows-apply_grant_types (some xs) c = search (grows_rules, Grows-check_each) depth 14

Grows-apply_response_types :
    (o : Option (List String)) (c : Client) → Grows (Client.apply_response_types o c)
unfolding Client.apply_response_types
Grows-apply_response_types none c = Grows-pure c
Grows-apply_response_types (some xs) c = search (grows_rules, Grows-check_each) depth 14

Grows-apply_auth_method : (o : Option String) (c : Client) → Grows (Client.apply_auth_method o c)
unfolding Client.apply_auth_method
Grows-apply_auth_method none c = Grows-pure c
Grows-apply_auth_method (some x) c = search grows_rules depth 14

Grows-apply_update : (fields : Fields) (c : Client) → Grows (Client.apply_update fields c)
unfolding Client.apply_update
Grows-apply_update fields c =
    search
      (
        grows_rules, Grows-apply_name, Grows-apply_grant_types, Grows-apply_response_types,
        Grows-apply_auth_method,
      )
      depth 14

module _ (env : Env) where
  Grows-check_uris : (uris : List String) → Grows (Client.check_uris env uris)
  unfolding Client.check_uris
  Grows-check_uris [] = Grows-pure tt
  Grows-check_uris (uri ∷ uris) = Grows-bind (Grows-raise_text _) λ u. Grows-check_uris uris

  Grows-check_client :
      (fields : Fields) (xs ys us vs : List String)
      → Grows (Client.check_new env fields xs ys us vs)
  unfolding Client.check_new Client.check_name Client.check_grant_types Client.check_response_types
      Client.check_required Client.check_auth_method
  Grows-check_client fields xs ys us vs =
      search (grows_rules, Grows-check_each, Grows-check_uris) depth 14

  Grows-client_id : Grows (generate_client_id env)
  unfolding generate_client_id
  Grows-client_id = search grows_rules depth 14

  Grows-client_secret : Grows (generate_client_secret env)
  unfolding generate_client_secret
  Grows-client_secret = search grows_rules depth 14

  Grows-hash_password : (password : String) → Grows (hash_password env password)
  unfolding hash_password
  Grows-hash_password password = search grows_rules depth 14

  Grows-validate_session : (id : Uuid) → Grows (AdminService.validate_session env id)
  unfolding AdminService.validate_session
  Grows-validate_session id = search (grows_rules, admins_rules) depth 14

  Grows-admit : (r : Request) → Grows (admit env r)
  unfolding admit
  Grows-admit r = search (grows_rules, Grows-validate_session) depth 14

  pub Grows-require_admin :
      (r : Request) {next : Exec Response Response} → Grows next → Grows (require_admin env r next)
  unfolding require_admin
  Grows-require_admin r g = Grows-bind (Grows-admit r) λ session. g

  pub Grows-admin_me : (r : Request) → Grows (handle_me env r)
  unfolding handle_me
  Grows-admin_me r = search (grows_rules, admins_rules, Grows-validate_session) depth 14

  pub Grows-list_tenants : (r : Request) → Grows (Tenant.handle_list env r)
  unfolding Tenant.handle_list
  Grows-list_tenants r = search (grows_rules, admins_rules) depth 14

  pub Grows-get_tenant : (r : Request) → Grows (Tenant.handle_get env r)
  unfolding Tenant.handle_get
  Grows-get_tenant r = search (grows_rules, others_rules) depth 14

  pub Grows-list_clients : (r : Request) → Grows (Client.handle_list env r)
  unfolding Client.handle_list
  Grows-list_clients r = search (grows_rules, others_rules, admins_rules) depth 14

  pub Grows-get_client : (r : Request) → Grows (Client.handle_get env r)
  unfolding Client.handle_get
  Grows-get_client r = search (grows_rules, admins_rules) depth 14

  pub Grows-list_redirect_uris : (r : Request) → Grows (RedirectUri.handle_list env r)
  unfolding RedirectUri.handle_list
  Grows-list_redirect_uris r = search (grows_rules, others_rules, admins_rules) depth 14

  module _ (laws : GormLaws env.gorm) where
    Grows-check_admin : (id password : String) → Grows (AdminService.check_admin env id password)
    unfolding AdminService.check_admin
    Grows-check_admin id password = search (grows_rules, admins_rules) depth 14

    Grows-admin_service_login :
        (id password ip agent : String) → Grows (AdminService.login env id password ip agent)
    unfolding AdminService.login
    Grows-admin_service_login id password ip agent =
        search (grows_rules, admins_rules, Grows-check_admin) depth 14

    pub Grows-admin_login : (config : Config) (r : Request) → Grows (handle_login env config r)
    unfolding handle_login
    Grows-admin_login config r = search (grows_rules, Grows-admin_service_login) depth 14

    Grows-revoke_parsed : (o : Option ℕ) → Grows (revoke_parsed env o)
    unfolding revoke_parsed AdminService.revoke_session
    Grows-revoke_parsed none = Grows-pure tt
    Grows-revoke_parsed (some id) = search (grows_rules, admins_rules) depth 14

    Grows-revoke_cookie : (o : Option String) → Grows (revoke_cookie env o)
    unfolding revoke_cookie
    Grows-revoke_cookie none = Grows-pure tt
    Grows-revoke_cookie (some value) = Grows-revoke_parsed _

    pub Grows-admin_logout : (config : Config) (r : Request) → Grows (handle_logout env config r)
    unfolding handle_logout
    Grows-admin_logout config r = search (grows_rules, Grows-revoke_cookie) depth 14

    pub Grows-create_tenant : (r : Request) → Grows (Tenant.handle_create env r)
    unfolding Tenant.handle_create
    Grows-create_tenant r = search (grows_rules, others_rules, Grows-check_tenant) depth 14

    pub Grows-update_tenant : (r : Request) → Grows (Tenant.handle_update env r)
    unfolding Tenant.handle_update
    Grows-update_tenant r =
        search (grows_rules, others_rules, Grows-raise_text, Grows-apply_tenant_name) depth 14

    pub Grows-create_client : (r : Request) → Grows (Client.handle_create env r)
    unfolding Client.handle_create
    Grows-create_client r =
        search
          (
            grows_rules, others_rules, admins_rules, Grows-check_client, Grows-client_id,
            Grows-client_secret, Grows-hash_password,
          )
          depth 20

    pub Grows-update_client : (r : Request) → Grows (Client.handle_update env r)
    unfolding Client.handle_update
    Grows-update_client r = search (grows_rules, others_rules, Grows-apply_update) depth 14

    pub Grows-delete_client : (r : Request) → Grows (Client.handle_delete env r)
    unfolding Client.handle_delete
    Grows-delete_client r = search (grows_rules, others_rules) depth 14

    pub Grows-rotate_secret : (r : Request) → Grows (Client.handle_rotate_secret env r)
    unfolding Client.handle_rotate_secret
    Grows-rotate_secret r =
        search (grows_rules, others_rules, Grows-client_secret, Grows-hash_password) depth 14

    pub Grows-create_redirect_uri : (r : Request) → Grows (RedirectUri.handle_create env r)
    unfolding RedirectUri.handle_create
    Grows-create_redirect_uri r =
        search (grows_rules, others_rules, admins_rules, Grows-raise_text) depth 14

    pub Grows-delete_redirect_uri : (r : Request) → Grows (RedirectUri.handle_delete env r)
    unfolding RedirectUri.handle_delete
    Grows-delete_redirect_uri r = search (grows_rules, admins_rules) depth 14
