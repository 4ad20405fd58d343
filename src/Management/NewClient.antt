-- ===== src/Management/NewClient.antt =====
-- The rows that `create_client` writes: the client and its addresses.
use oidc_demo.Base.{
  find?, none, ℕ, String, Bool, true, false, List, [], ◌∷◌, ◌≡◌, refl, sym, ap, ◌∙◌, subst, Insert,
  ◌||◌, ◌&&◌, ◌==◌, str_eq, contains, arith, if◌then◌else◌,
}
use oidc_demo.Gorm.{GormLaws}
use oidc_demo.Model.{Uuid, Time, Client, RedirectUri, PostLogoutRedirectUri}
use oidc_demo.World.{World, Env, clients, post_logout_redirect_uris}
use oidc_demo.Outcome.{Ensures, ensures-bind, ensures-pure, ensures-create, ensures-create_fresh}
use oidc_demo.Outcome.Statements.{ensures-transaction}
use oidc_demo.Store.Clients
use oidc_demo.Store.PostLogoutRedirectUris
use oidc_demo.Management.Addresses.{registered, registered_post, any-Insert, ensures-create_uri}

either : (a b c : Bool) → a ≡ b → (c || a) ≡ (c || b)
either a b c e = ap (λ x. c || x) e

-- One address and the rest of them.
one_of : (a s t r : Bool) → (a && t || (a && s || r)) ≡ (a && (if s then true else t) || r)
one_of true true true r = ground arith
one_of true true false r = ground arith
one_of true false t r = ground arith
one_of false s t r = ground arith

module _ (env : Env) (laws : GormLaws env.gorm) where
  ensures-create_uris :
      (id : Uuid) (uris : List String) (w : World)
      → Ensures (Clients.create_redirect_uris env id uris) w (λ _ v.
        ((c : Uuid) (u : String)
          → registered v c u ≡ ((id == c && contains uris u) || registered w c u))
        × ((n : ℕ) × (rows : List RedirectUri) × (v ≡ record w { tick = n; redirect_uris = rows })))
  unfolding Clients.create_redirect_uris contains
  ensures-create_uris id [] w =
      ensures-pure tt w _ (λ c u. ground arith, (w.tick, w.redirect_uris, refl))
  ensures-create_uris id (uri ∷ uris) w =
      ensures-bind (ensures-create_uri env laws id uri w) λ r w1 (first, (rows1, e1)). record {
        at = λ a v run.
            let (others, (n, rows, e)) = (ensures-create_uris id uris w1).at a v run in
            (
              λ c u.
                  others c u
                  ∙ either _ _ (id == c && contains uris u) (first c u)
                  ∙ one_of (id == c) (str_eq uri u) (contains uris u) (registered w c u),
              (n, rows, e ∙ ap (λ (x : World). record x { tick = n; redirect_uris = rows }) e1),
            );
      }

  ensures-create_post_logout_uris :
      (id : Uuid) (uris : List String) (w : World)
      → Ensures (Clients.create_post_logout_redirect_uris env id uris) w (λ _ v.
        ((c : Uuid) (u : String)
          → registered_post v c u ≡ ((id == c && contains uris u) || registered_post w c u))
        × ((n : ℕ) × (rows : List PostLogoutRedirectUri) × (v
              ≡ record w { tick = n; post_logout_redirect_uris = rows })))
  unfolding Clients.create_post_logout_redirect_uris PostLogoutRedirectUris.create_uri contains
  ensures-create_post_logout_uris id [] w =
      ensures-pure tt w _ (λ c u. ground arith, (w.tick, w.post_logout_redirect_uris, refl))
  ensures-create_post_logout_uris id (uri ∷ uris) w =
      ensures-bind (ensures-create env post_logout_redirect_uris laws _ _ w)
        λ r w1 (rows1, added, (row_id, row_at, made), e1). record {
          at = λ a v run.
              let (others, (n, rows, e)) =
                (ensures-create_post_logout_uris id uris w1).at a v run in
              (
                λ c u.
                    others c u
                    ∙ either _ _ (id == c && contains uris u) (
                        ap (λ (x : World). registered_post x c u) e1
                        ∙ any-Insert (λ x. x.client_db_id == c && str_eq x.uri u) added
                        ∙ ap
                            (λ (x : PostLogoutRedirectUri).
                              (x.client_db_id == c && str_eq x.uri u) || registered_post w c u)
                            made)
                    ∙ one_of (id == c) (str_eq uri u) (contains uris u) (registered_post w c u),
                (
                  n,
                  rows,
                  e
                      ∙ ap (λ (x : World). record x { tick = n; post_logout_redirect_uris = rows })
                          e1,
                ),
              );
        }

  -- The client that `create_client` adds, with its addresses.
  pub ensures-create_client :
      (mk : Uuid → Time → Client) (uris posts : List String) (w : World)
      → Ensures (Clients.create_client env mk uris posts) w (λ client v.
        ((id : Uuid) × (at : Time) × (client ≡ record (mk id at) { require_pkce = true }))
        × (find? (Clients.clash client) w.clients ≡ none)
        × Insert client w.clients v.clients
        × ((c : Uuid) (u : String)
            → registered v c u ≡ ((client.id == c && contains uris u) || registered w c u))
        × ((c : Uuid) (u : String)
            → registered_post v c u
              ≡ ((client.id == c && contains posts u) || registered_post w c u)))
  unfolding Clients.create_client
  ensures-create_client mk uris posts w = ensures-transaction (
      ensures-bind (ensures-create_fresh env clients laws _ _ w)
        λ client w1 (fresh, (rows1, added, (id, at, made), e1)).
          ensures-bind (ensures-create_uris client.id uris w1) λ u2 w2 (grows, (n2, rows2, e2)).
            ensures-bind (ensures-create_post_logout_uris client.id posts w2)
              λ u3 w3 (grows_post, (n3, rows3, e3)). ensures-pure client w3 _ (
                (id, at, made),
                fresh,
                subst (λ t. Insert client w.clients t)
                    (sym (
                      ap (λ (x : World). x.clients) e3
                      ∙ ap (λ (x : World). x.clients) e2
                      ∙ ap (λ (x : World). x.clients) e1))
                    added,
                λ c u.
                    ap (λ (x : World). registered x c u) e3
                    ∙ grows c u
                    ∙ either _ _ (client.id == c && contains uris u)
                        (ap (λ (x : World). registered x c u) e1),
                λ c u.
                    grows_post c u
                    ∙ either _ _ (client.id == c && contains posts u) (
                        ap (λ (x : World). registered_post x c u) e2
                        ∙ ap (λ (x : World). registered_post x c u) e1),
              ))
