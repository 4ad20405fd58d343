-- ===== src/Server/Clients.antt =====
-- The management routes of clients and of their addresses, from the request to the tables.
use oidc_demo.Base.{ℕ, ◌<◌, subst}
use oidc_demo.Gorm.{GormLaws}
use oidc_demo.World.{World, Env}
use oidc_demo.Http.{Request, Response}
use oidc_demo.Oidc.Config.{Config}
use oidc_demo.Crypto.Argon2id.Verified.{HashLaws}
use oidc_demo.Management.Addresses.{
  AddsUri, DeletesUri, ensures-handle_create, ensures-handle_delete,
}
use oidc_demo.Management.Changes.{Disables, Rotates, ensures-handle_disable, ensures-rotate_secret}
use oidc_demo.Management.CreatedClient
use oidc_demo.Management.CreatedClient.{AddsClient}
use oidc_demo.Server.Admin.{management_success}
use oidc_demo.Server.ClientRefusals.{
  refuses-create, refuses-delete, refuses-rotate, refuses-create_uri, refuses-delete_uri,
}
use oidc_demo.Server.Routes.{ManagementRoute, management, manage, serve}

-- The call that the middleware counts changes none of what is said of the tables.
AddsClient-after :
    (env : Env) (r : Request) (w : World) (n : ℕ) (response : Response) (v : World)
    → AddsClient env r (record w { tick = n }) response v
    → AddsClient env r w response v
AddsClient-after env r w n response v k = record {
  tenant_id = k.tenant_id;
  tenant = k.tenant;
  fields = k.fields;
  client = k.client;
  secret = k.secret;
  is_named = k.is_named;
  of_tenant = k.of_tenant;
  has_body = k.has_body;
  is_checked = k.is_checked;
  is_new = k.is_new;
  is_added = k.is_added;
  is_bound = k.is_bound;
  is_active = k.is_active;
  is_supported = k.is_supported;
  name = k.name;
  grant_types = k.grant_types;
  response_types = k.response_types;
  auth_method = k.auth_method;
  needs_pkce = k.needs_pkce;
  grows = k.grows;
  grows_post = k.grows_post;
  verifies = k.verifies;
  shown = k.shown;
}

AddsUri-after :
    (env : Env) (r : Request) (w : World) (n : ℕ) (v : World)
    → AddsUri env r (record w { tick = n }) v
    → AddsUri env r w v
AddsUri-after env r w n v k = record {
  client = k.client;
  fields = k.fields;
  is_named = k.is_named;
  has_body = k.has_body;
  registers = record {
    is_valid = k.registers.is_valid;
    grows = k.registers.grows;
    tick = k.registers.tick;
    rows = k.registers.rows;
    rest = k.registers.rest;
  };
}

DeletesUri-after :
    (env : Env) (r : Request) (w : World) (n : ℕ) (v : World)
    → DeletesUri env r (record w { tick = n }) v
    → DeletesUri env r w v
DeletesUri-after env r w n v k = record {
  client = k.client;
  id = k.id;
  uri = k.uri;
  is_named = k.is_named;
  is_found = k.is_found;
  is_own = k.is_own;
  tick = k.tick;
  rest = k.rest;
}

Disables-after :
    (env : Env) (r : Request) (w : World) (n : ℕ) (v : World)
    → Disables env r (record w { tick = n }) v
    → Disables env r w v
Disables-after env r w n v k = record {
  id = k.id;
  is_named = k.is_named;
  tick = k.tick;
  at = k.at;
  rest = k.rest;
}

Rotates-after :
    (env : Env) (r : Request) (w : World) (n : ℕ) (response : Response) (v : World)
    → Rotates env r (record w { tick = n }) response v
    → Rotates env r w response v
Rotates-after env r w n response v k = record {
  id = k.id;
  client = k.client;
  secret = k.secret;
  hash = k.hash;
  is_named = k.is_named;
  is_found = k.is_found;
  shown = k.shown;
  verifies = k.verifies;
  tick = k.tick;
  at = k.at;
  rest = k.rest;
}

module _ (env : Env) (config : Config) (laws : GormLaws env.gorm) where
  -- If the request to add an address to a client is answered with a status below 400, the address of its
  -- body can be parsed, has a scheme and a host and no fragment, and is registered for the client of the
  -- path; for every client, the addresses are those from before and this one, and nothing else changes.
  pub added_uri_is_registered :
      (r : Request) (w : World)
      → (serve env config (management ManagementRoute.create_redirect_uri) r w).0.status < 400
      → AddsUri env r w (serve env config (management ManagementRoute.create_redirect_uri) r w).1
  unfolding manage
  added_uri_is_registered r w h =
      management_success env config laws ManagementRoute.create_redirect_uri r w
        (refuses-create_uri env r)
        (λ u (n, same). record {
          at = λ a v run. AddsUri-after env r w n v (
              subst (λ x. AddsUri env r x v) same
                ((ensures-handle_create env laws r u).at a v run));
        })
        h

  -- If the request to delete an address is answered with a status below 400, the row that it names was
  -- the client's that it names, that row is gone, and nothing else has changed.
  pub deleted_uri_is_own :
      (r : Request) (w : World)
      → (serve env config (management ManagementRoute.delete_redirect_uri) r w).0.status < 400
      → DeletesUri env r w (serve env config (management ManagementRoute.delete_redirect_uri) r w).1
  unfolding manage
  deleted_uri_is_own r w h =
      management_success env config laws ManagementRoute.delete_redirect_uri r w
        (refuses-delete_uri env r)
        (λ u (n, same). record {
          at = λ a v run. DeletesUri-after env r w n v (
              subst (λ x. DeletesUri env r x v) same
                ((ensures-handle_delete env laws r u).at a v run));
        })
        h

  pub disabled_by :
      (r : Request) (w : World)
      → (serve env config (management ManagementRoute.delete_client) r w).0.status < 400
      → Disables env r w (serve env config (management ManagementRoute.delete_client) r w).1
  unfolding manage
  disabled_by r w h =
      management_success env config laws ManagementRoute.delete_client r w (refuses-delete env r)
        (λ u (n, same). record {
          at = λ a v run. Disables-after env r w n v (
              subst (λ x. Disables env r x v) same
                ((ensures-handle_disable env laws r u).at a v run));
        })
        h

  module _ (hashes : HashLaws env) where
    -- If the request to create a client is answered with a status below 400, a client whose id and
    -- client_id no client had is added to the tenant of the path, which exists. Its row is active,
    -- and holds the name, the grant types, the response types and the token_endpoint_auth_method
    -- of the body, or the default; the name has 1 to 255 bytes, and the types are supported ones
    -- and not empty. The redirect URIs and the post-logout redirect URIs of the body can be parsed
    -- and have a scheme and a host and no fragment, and exactly they are newly registered. The
    -- client needs PKCE whatever the request says, and the secret that the response shows is
    -- verified with its hash.
    pub created_client_is_sound :
        (r : Request) (w : World)
        → (serve env config (management ManagementRoute.create_client) r w).0.status < 400
        → AddsClient env r w
            (serve env config (management ManagementRoute.create_client) r w).0
            (serve env config (management ManagementRoute.create_client) r w).1
    unfolding manage
    created_client_is_sound r w h =
        management_success env config laws ManagementRoute.create_client r w (refuses-create env r)
          (λ u (n, same). record {
            at = λ a v run. AddsClient-after env r w n a v (
                subst (λ x. AddsClient env r x a v) same
                  ((CreatedClient.ensures-handle_create env laws hashes r u).at a v run));
          })
          h

    pub rotated_by :
        (r : Request) (w : World)
        → (serve env config (management ManagementRoute.rotate_secret) r w).0.status < 400
        → Rotates env r w
            (serve env config (management ManagementRoute.rotate_secret) r w).0
            (serve env config (management ManagementRoute.rotate_secret) r w).1
    unfolding manage
    rotated_by r w h =
        management_success env config laws ManagementRoute.rotate_secret r w (refuses-rotate env r)
          (λ u (n, same). record {
            at = λ a v run. Rotates-after env r w n a v (
                subst (λ x. Rotates env r x a v) same
                  ((ensures-rotate_secret env laws hashes r u).at a v run));
          })
          h
