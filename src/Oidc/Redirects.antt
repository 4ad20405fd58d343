-- ===== src/Oidc/Redirects.antt =====
-- Where the authorization endpoint sends a browser.
use oidc_demo.Base.{
  ℕ, String, Bool, true, false, Option, none, some, List, [], ◌∷◌, any, keep, find?, ◌≡◌, refl, sym,
  ap, ◌∙◌, subst, inl, inr, not, ◌&&◌, ◌==◌, str_eq, Bool-cases, arith, eq_iff,
}
use oidc_demo.Gorm.{GormLaws}
use oidc_demo.Model.{Tenant, Client, RedirectUri}
use oidc_demo.World.{World, Env, clients, redirect_uris, post_logout_redirect_uris}
use oidc_demo.Http.{Request}
use oidc_demo.Outcome.{
  Ensures, ensures-bind, ensures-pure, ensures-raise_if, ensures-or_raise, ensures-map_err,
  ensures-first, ensures-find,
}
use oidc_demo.Store.Clients
use oidc_demo.Oidc.Client.{is_active}
use oidc_demo.Oidc.Authorize.{is_registered_redirect_uri, check_client}

-- The client that the request names is active, belongs to the tenant of the path, and has registered
-- the address that the request gives.
pub record Registered (r : Request) (w : World) (uri : String) : Type 0 where
  pub tenant : Tenant
  pub client : Client
  pub is_tenant : find? (λ t. str_eq t.code r.tenant_code) w.tenants ≡ some tenant
  pub is_client :
      find? (λ c. str_eq c.client_id (r.query_param "client_id")) w.clients ≡ some client
  pub is_active : client.status ≡ "active"
  pub of_tenant : client.tenant_id ≡ tenant.id
  pub is_requested : uri ≡ r.query_param "redirect_uri"
  pub is_registered :
      any (λ u. u.client_db_id == client.id && str_eq u.uri uri) w.redirect_uris ≡ true

any-keep : {A : Type 0} (q p : A → Bool) (t : List A) → any p (keep q t) ≡ any (λ x. q x && p x) t
any-keep q p [] = refl
any-keep q p (x ∷ t) = elim (Bool-cases (q x)) [
  | inl e ↦ rw (e, any-keep q p t) refl
  | inr e ↦ rw (e, any-keep q p t) refl
]

active-true : (c : Client) → not (is_active c) ≡ false → c.status ≡ "active"
active-true c h = ground (arith, eq_iff c.status "active")

same_id : (a b : ℕ) → not (a == b) ≡ false → a ≡ b
same_id a b h = ground arith

negated : (b : Bool) → not b ≡ false → b ≡ true
negated b h = ground arith

module _ (env : Env) (laws : GormLaws env.gorm) where
  ensures-preload :
      (found : Option Client) (w : World)
      → Ensures (Clients.preload_redirect_uris env found) w (λ o v.
        (x : Client × List RedirectUri)
        → o ≡ some x
        → (found ≡ some x.0) × (x.1 ≡ keep (λ u. u.client_db_id == x.0.id) w.redirect_uris))
  unfolding Clients.preload_redirect_uris
  ensures-preload none w = ensures-pure none w _ (λ x e. absurd (cc))
  ensures-preload (some c) w =
      ensures-bind (ensures-find env post_logout_redirect_uris laws _ w) λ posts w1 e1.
        ensures-bind (ensures-find env redirect_uris laws _ w1) λ uris w2 e2.
          ensures-pure _ w2 _ (λ x e.
            let same : ◌≡◌ {A = Client × List RedirectUri} (c, uris) x = cc in
            subst
              (λ (x : Client × List RedirectUri).
                (◌≡◌ {A = Option Client} (some c) (some x.0))
                × (x.1 ≡ keep (λ u. u.client_db_id == x.0.id) w.redirect_uris))
              same
              (
                refl,
                e2.0
                    ∙ ap
                        (λ (v : World).
                          keep (λ (u : RedirectUri). u.client_db_id == c.id) v.redirect_uris)
                        e1.1,
              ))

  ensures-client :
      (key : String) (w : World)
      → Ensures (Clients.find_by_client_id_with_redirect_uris env key) w (λ o v.
        (x : Client × List RedirectUri)
        → o ≡ some x
        → (find? (λ c. str_eq c.client_id key) w.clients ≡ some x.0)
          × (x.1 ≡ keep (λ u. u.client_db_id == x.0.id) w.redirect_uris))
  unfolding Clients.find_by_client_id_with_redirect_uris
  ensures-client key w = ensures-bind (ensures-first env clients laws _ w) λ found w1 e1. record {
    at = λ o v run x e.
        let (same, uris) = (ensures-preload found w1).at o v run x e in
        (
          sym e1.0 ∙ same,
          uris ∙ ap (λ (v : World). keep (λ u. u.client_db_id == x.0.id) v.redirect_uris) e1.1,
        );
  }

  abbrev pub Checked : Tenant → Request → World → Client → Type 0
  Checked tenant r w client =
      (find? (λ c. str_eq c.client_id (r.query_param "client_id")) w.clients ≡ some client)
      × (client.status ≡ "active")
      × (client.tenant_id ≡ tenant.id)
      × (any (λ u. u.client_db_id == client.id && str_eq u.uri (r.query_param "redirect_uri"))
            w.redirect_uris
          ≡ true)

  pub ensures-check_client :
      (tenant : Tenant) (r : Request) (w : World)
      → Ensures (check_client env tenant r) w (λ client v. Checked tenant r w client)
  unfolding check_client is_registered_redirect_uri
  ensures-check_client tenant r w = ensures-bind (ensures-raise_if _ _ w) λ u w1 e1.
      ensures-bind (ensures-raise_if _ _ w1) λ u w2 e2.
        ensures-bind (ensures-map_err _ (ensures-client (r.query_param "client_id") w2))
          λ found w3 q3. ensures-bind (ensures-or_raise found _ w3) λ client w4 e4.
            ensures-bind (ensures-raise_if _ _ w4) λ u w5 e5.
              ensures-bind (ensures-raise_if _ _ w5) λ u w6 e6.
                ensures-bind (ensures-raise_if _ _ w6) λ u w7 e7.
                  ensures-bind (ensures-raise_if _ _ w7) λ u w8 e8. ensures-pure client.0 w8 _ (
                    subst (λ x. Checked tenant r x client.0) (sym (e1.1 ∙ e2.1))
                      (
                        (q3 client e4.0).0,
                        active-true client.0 e5.0,
                        same_id _ _ e6.0,
                        sym (
                              any-keep (λ u. u.client_db_id == client.0.id)
                                (λ u. str_eq u.uri (r.query_param "redirect_uri")) w2.redirect_uris)
                            ∙ ap (any (λ u. str_eq u.uri (r.query_param "redirect_uri")))
                                (sym (q3 client e4.0).1)
                            ∙ negated _ e8.0,
                      ))
