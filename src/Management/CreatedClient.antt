-- ===== src/Management/CreatedClient.antt =====
-- A request to create a client, from the checks to the rows and the response.
use oidc_demo.Base.{
  List, none, ℕ, String, true, some, [], ◌∷◌, ◌++◌, ◌≡◌, refl, sym, ap, ◌∙◌, subst, find?, Insert,
  ◌||◌, ◌&&◌, ◌==◌, contains,
}
use oidc_demo.Gorm.{GormLaws}
use oidc_demo.Model.{Uuid, Tenant, Client}
use oidc_demo.World.{World, Env, tenants, advance}
use oidc_demo.Http.{text_field, Request, Fields, Response, text, json, object}
use oidc_demo.Quiet.{Quiet, Ticked, Ticked-trans, quiet_rules, ensures-Quiet}
use oidc_demo.Outcome.{
  Ensures, ensures-bind, ensures-pure, ensures-or_raise, ensures-first, ensures-map_err,
}
use oidc_demo.Crypto.Argon2id.{verify_password}
use oidc_demo.Crypto.Argon2id.Verified.{HashLaws}
use oidc_demo.Store.Clients
use oidc_demo.Store.Tenants
use oidc_demo.Management.Secret.{generate_client_id}
use oidc_demo.Management.Addresses.{registered, registered_post}
use oidc_demo.Management.Changes.{ensures-hash, ensures-secret}
use oidc_demo.Management.CheckedClient.{IsSupported, IsCheckedClient, ensures-check_new}
use oidc_demo.Management.NewClient.{ensures-create_client}
use oidc_demo.Management.Client.{
  auth_method_or_default, list_field, new_client, to_client_response, handle_create,
}

-- What the request comes to: a client of a tenant that exists, with checked addresses, and a secret
-- that the response shows.
pub record AddsClient (env : Env) (r : Request) (w : World) (response : Response) (v : World)
    : Type 0 where
  pub tenant_id : Uuid
  pub tenant : Tenant
  pub fields : Fields
  pub client : Client
  pub secret : String
  pub is_named : env.uuid_parse (r.param "tenant_id") ≡ some tenant_id
  pub of_tenant : find? (λ t. t.id == tenant_id) w.tenants ≡ some tenant
  pub has_body : r.bind ≡ some fields
  pub is_checked :
      IsCheckedClient env fields
        (list_field fields "grant_types")
        (list_field fields "response_types")
        (list_field fields "redirect_uris")
        (list_field fields "post_logout_redirect_uris")
  pub is_new : find? (Clients.clash client) w.clients ≡ none
  pub is_added : Insert client w.clients v.clients
  pub is_bound : client.tenant_id ≡ tenant_id
  pub is_active : client.status ≡ "active"
  pub is_supported : IsSupported client
  pub name : client.name ≡ text_field fields "name"
  pub grant_types : client.grant_types ≡ list_field fields "grant_types"
  pub response_types : client.response_types ≡ list_field fields "response_types"
  pub auth_method : client.token_endpoint_auth_method ≡ auth_method_or_default fields
  pub needs_pkce : client.require_pkce ≡ true
  pub grows :
      (c : Uuid) (u : String)
      → registered v c u
        ≡ ((client.id == c && contains (list_field fields "redirect_uris") u) || registered w c u)
  pub grows_post :
      (c : Uuid) (u : String)
      → registered_post v c u ≡ (
          (client.id == c && contains (list_field fields "post_logout_redirect_uris") u)
          || registered_post w c u)
  pub verifies : verify_password env secret client.client_secret_hash ≡ some true
  pub shown :
      response
      ≡ json 201 (object (to_client_response env client ++ (("client_secret", text secret) ∷ [])))

Quiet-client_id : (env : Env) → Quiet (generate_client_id env)
unfolding generate_client_id
Quiet-client_id env = search quiet_rules depth 14

ensures-client_id :
    (env : Env) (w : World) → Ensures (generate_client_id env) w (λ id v. Ticked w v × Unit)
ensures-client_id env w = ensures-Quiet (Quiet-client_id env) (record { at = λ a v e. tt })

-- The fields that have been checked are those of the row.
made-IsSupported :
    (env : Env) (tenant_id : Uuid) (fields : Fields) (client_id hash : String) (id at : ℕ)
    (client : Client) (uris posts : List String)
    → client ≡ record (new_client tenant_id fields client_id hash id at) { require_pkce = true }
    → IsCheckedClient env fields
        (list_field fields "grant_types")
        (list_field fields "response_types")
        uris
        posts
    → IsSupported client
unfolding new_client
made-IsSupported env tenant_id fields client_id hash id at client uris posts e h =
    subst IsSupported (sym e) (record {
      name = h.name;
      grant_types = h.grants_valid;
      response_types = h.responses_valid;
      auth_method = h.auth_method;
    })

-- The row that is made, in the fields that matter here.
made_row :
    (tenant_id : Uuid) (fields : Fields) (client_id hash : String) (id at : ℕ) (client : Client)
    → client ≡ record (new_client tenant_id fields client_id hash id at) { require_pkce = true }
    → (client.tenant_id ≡ tenant_id)
      × (client.status ≡ "active")
      × (client.grant_types ≡ list_field fields "grant_types")
      × (client.require_pkce ≡ true)
      × (client.name ≡ text_field fields "name")
      × (client.response_types ≡ list_field fields "response_types")
      × (client.token_endpoint_auth_method ≡ auth_method_or_default fields)
      × (client.client_secret_hash ≡ hash)
unfolding new_client
made_row tenant_id fields client_id hash id at client e = (
  ap (λ (c : Client). c.tenant_id) e,
  ap (λ (c : Client). c.status) e,
  ap (λ (c : Client). c.grant_types) e,
  ap (λ (c : Client). c.require_pkce) e,
  ap (λ (c : Client). c.name) e,
  ap (λ (c : Client). c.response_types) e,
  ap (λ (c : Client). c.token_endpoint_auth_method) e,
  ap (λ (c : Client). c.client_secret_hash) e,
)

module _ (env : Env) (laws : GormLaws env.gorm) (hashes : HashLaws env) where
  pub ensures-handle_create :
      (r : Request) (w : World)
      → Ensures (handle_create env r) w (λ response v. AddsClient env r w response v)
  unfolding handle_create Tenants.find_by_id
  ensures-handle_create r w = ensures-bind (ensures-or_raise _ _ w) λ tenant_id w1 e1.
      ensures-bind (ensures-map_err _ (ensures-first env tenants laws _ w1)) λ found w2 e2.
        ensures-bind (ensures-or_raise found _ w2) λ tenant w3 e3.
          ensures-bind (ensures-or_raise _ _ w3) λ fields w4 e4.
            ensures-bind (ensures-check_new env fields _ _ _ _ w4) λ u5 w5 (checked, e5).
              ensures-bind (ensures-map_err _ (ensures-client_id env w5)) λ client_id w6 (t6, u6).
                ensures-bind (ensures-map_err _ (ensures-secret env laws hashes w6))
                  λ secret w7 (t7, u7).
                    ensures-bind (ensures-map_err _ (ensures-hash env laws hashes secret w7))
                      λ hash w8 (t8, verifies).
                        ensures-bind (ensures-map_err _ (ensures-create_client env laws _ _ _ w8))
                          λ client w9 ((id, at, made), fresh, added, grows, grows_post).
                            let (n, same) = Ticked-trans w5 (Ticked-trans w5 t6 t7) t8 in
                            let start : w8 ≡ record w { tick = n } =
                              same
                              ∙ ap (λ (x : World). record x { tick = n })
                                  (sym (e3.1 ∙ e4.1 ∙ e5) ∙ e2.1 ∙ ap (advance env) (sym e1.1)) in
                            let (
                              bound, active, grants, pkce, name, responses, auth_method, hashed,
                            ) =
                              made_row tenant_id fields client_id hash id at client made in
                            ensures-pure _ w9 _ (record {
                              tenant_id = tenant_id;
                              tenant = tenant;
                              fields = fields;
                              client = client;
                              secret = secret;
                              is_named = e1.0;
                              of_tenant =
                                  ap (λ (x : World). find? (λ t. t.id == tenant_id) x.tenants) e1.1
                                  ∙ sym e2.0
                                  ∙ e3.0;
                              has_body = e4.0;
                              is_checked = checked;
                              is_new =
                                  subst
                                    (λ (x : World). find? (Clients.clash client) x.clients ≡ none)
                                    start fresh;
                              is_added =
                                  subst (λ (x : World). Insert client x.clients w9.clients) start
                                    added;
                              is_bound = bound;
                              is_active = active;
                              is_supported =
                                  made-IsSupported env tenant_id fields client_id hash id at client
                                    _ _ made checked;
                              name = name;
                              grant_types = grants;
                              response_types = responses;
                              auth_method = auth_method;
                              needs_pkce = pkce;
                              grows = λ c u.
                                  grows c u
                                  ∙ ap
                                      (λ x.
                                        (client.id == c
                                          && contains (list_field fields "redirect_uris") u)
                                        || registered x c u)
                                      start;
                              grows_post = λ c u.
                                  grows_post c u
                                  ∙ ap
                                      (λ x.
                                        (client.id == c
                                          && contains
                                              (list_field fields "post_logout_redirect_uris") u)
                                        || registered_post x c u)
                                      start;
                              verifies =
                                  subst (λ h. verify_password env secret h ≡ some true) (sym hashed)
                                    verifies;
                              shown = refl;
                            })
