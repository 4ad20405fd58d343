-- ===== src/Management/Changes.antt =====
-- What the requests that change a client or its secret have written, when they come
-- to their end.
use oidc_demo.Base.{
  ℕ, suc, String, true, some, [], ◌∷◌, map, ◌≡◌, refl, sym, ap, ◌∙◌, find?, change, ◌==◌,
}
use oidc_demo.Gorm.{GormLaws}
use oidc_demo.Model.{Uuid, Time, Client}
use oidc_demo.World.{World, Env, clients, advance}
use oidc_demo.Http.{Request, Response, text, json, object}
use oidc_demo.Quiet.{Quiet, Ticked, Ticked-trans, quiet_rules, ensures-Quiet}
use oidc_demo.Outcome.{
  Ensures, ensures-bind, ensures-pure, ensures-or_raise, ensures-first, ensures-updates,
  ensures-map_err,
}
use oidc_demo.Crypto.Argon2id.{hash_password, verify_password}
use oidc_demo.Crypto.Argon2id.Verified.{HashLaws, verify_password-hash_password}
use oidc_demo.Store.Clients
use oidc_demo.Management.Secret.{generate_client_secret}
use oidc_demo.Management.Client

-- The client of the path is disabled, and nothing else changes.
pub record Disables (env : Env) (r : Request) (w v : World) : Type 0 where
  pub id : Uuid
  pub is_named : env.uuid_parse (r.param "id") ≡ some id
  pub tick : ℕ
  pub at : Time
  pub rest : v ≡ record w {
    tick = tick;
    clients =
        map
          (change (λ c. c.id == id) (λ c. record c { status = "disabled"; updated_at = at }))
          w.clients;
  }

-- The client of the path has the hash of a new secret, which the response shows.
pub record Rotates (env : Env) (r : Request) (w : World) (response : Response) (v : World)
    : Type 0 where
  pub id : Uuid
  pub client : Client
  pub secret : String
  pub hash : String
  pub is_named : env.uuid_parse (r.param "id") ≡ some id
  pub is_found : find? (λ c. c.id == id) w.clients ≡ some client
  pub shown :
      response
      ≡ json 200
          (object (("client_id", text client.client_id) ∷ ("client_secret", text secret) ∷ []))
  pub verifies : verify_password env secret hash ≡ some true
  pub tick : ℕ
  pub at : Time
  pub rest : v ≡ record w {
    tick = tick;
    clients =
        map
          (change (λ c. c.id == id) (λ c. record c { client_secret_hash = hash; updated_at = at }))
          w.clients;
  }

module _ (env : Env) (laws : GormLaws env.gorm) where
  pub ensures-handle_disable :
      (r : Request) (w : World) → Ensures (Client.handle_delete env r) w (λ _ v. Disables env r w v)
  unfolding Client.handle_delete Clients.find_by_id Clients.soft_delete
  ensures-handle_disable r w = ensures-bind (ensures-or_raise _ _ w) λ id w1 e1.
      ensures-bind (ensures-map_err _ (ensures-first env clients laws _ w1)) λ found w2 e2.
        ensures-bind (ensures-or_raise found _ w2) λ row w3 e3.
          ensures-bind (ensures-map_err _ (ensures-updates env clients laws _ _ w3))
            λ n w4 (at, state).
              let start : w3 ≡ advance env w = sym e3.1 ∙ e2.1 ∙ ap (advance env) (sym e1.1) in
              ensures-pure _ w4 _ (record {
                id = id;
                is_named = e1.0;
                tick = suc (suc w.tick);
                at = at;
                rest =
                    state
                    ∙ ap
                        (λ (x : World). record x {
                          tick = suc x.tick;
                          clients =
                              map
                                (change (λ c. c.id == id)
                                  (λ c. record c { status = "disabled"; updated_at = at }))
                                x.clients;
                        })
                        start;
              })

  Quiet-secret : Quiet (generate_client_secret env)
  unfolding generate_client_secret
  Quiet-secret = search quiet_rules depth 14

  Quiet-hash : (secret : String) → Quiet (hash_password env secret)
  unfolding hash_password
  Quiet-hash secret = search quiet_rules depth 14

  module _ (hashes : HashLaws env) where
    pub ensures-hash :
        (secret : String) (w : World)
        → Ensures
            (hash_password env secret)
            w
            (λ hash v. Ticked w v × (verify_password env secret hash ≡ some true))
    ensures-hash secret w =
        ensures-Quiet (Quiet-hash secret) (record {
          at = λ hash v run. verify_password-hash_password env hashes secret hash w v run;
        })

    pub ensures-secret :
        (w : World) → Ensures (generate_client_secret env) w (λ secret v. Ticked w v × Unit)
    ensures-secret w = ensures-Quiet Quiet-secret (record { at = λ a v e. tt })

    pub ensures-rotate_secret :
        (r : Request) (w : World)
        → Ensures (Client.handle_rotate_secret env r) w (λ response v. Rotates env r w response v)
    unfolding Client.handle_rotate_secret Clients.find_by_id Clients.update_secret_hash
    ensures-rotate_secret r w = ensures-bind (ensures-or_raise _ _ w) λ id w1 e1.
        ensures-bind (ensures-map_err _ (ensures-first env clients laws _ w1)) λ found w2 e2.
          ensures-bind (ensures-or_raise found _ w2) λ client w3 e3.
            ensures-bind (ensures-map_err _ (ensures-secret w3)) λ secret w4 (t4, u4).
              ensures-bind (ensures-map_err _ (ensures-hash secret w4)) λ hash w5 (t5, verifies).
                ensures-bind (ensures-map_err _ (ensures-updates env clients laws _ _ w5))
                  λ n w6 (at, state).
                    let start : w3 ≡ advance env w =
                      sym e3.1 ∙ e2.1 ∙ ap (advance env) (sym e1.1) in
                    let (k, same) = Ticked-trans w3 t4 t5 in
                    ensures-pure _ w6 _ (record {
                      id = id;
                      client = client;
                      secret = secret;
                      hash = hash;
                      is_named = e1.0;
                      is_found =
                          ap (λ (x : World). find? (λ c. c.id == id) x.clients) e1.1
                          ∙ sym e2.0
                          ∙ e3.0;
                      shown = refl;
                      verifies = verifies;
                      tick = suc k;
                      at = at;
                      rest =
                          state
                          ∙ ap
                              (λ (x : World). record x {
                                tick = suc x.tick;
                                clients =
                                    map
                                      (change (λ c. c.id == id)
                                        (λ c. record c {
                                          client_secret_hash = hash;
                                          updated_at = at;
                                        }))
                                      x.clients;
                              })
                              (same ∙ ap (λ (x : World). record x { tick = k }) start);
                    })
