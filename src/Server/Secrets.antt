-- ===== src/Server/Secrets.antt =====
-- PUT /management/v1/clients/:id/secret: the new secret opens the client.
use oidc_demo.Base.{
  String, true, false, some, [], ◌∷◌, ◌≡◌, refl, sym, ap, ◌∙◌, ◌<◌, ◌==◌, ==_refl, find?, not,
  str_eq, if◌then◌else◌,
}
use oidc_demo.Gorm.{GormLaws, FindsSucceed}
use oidc_demo.Model.{Client}
use oidc_demo.World.{
  World, Env, ok, clients, first, read_reply, advance, or_raise, raise_if, pure, ◌>>=◌,
}
use oidc_demo.Http.{Request, Response, text, json, object}
use oidc_demo.Outcome.{bind-run}
use oidc_demo.Progress.{find-change}
use oidc_demo.Oidc.Config.{Config}
use oidc_demo.Oidc.Client.{authenticate_client, is_active}
use oidc_demo.Crypto.Argon2id.{verify_password}
use oidc_demo.Crypto.Argon2id.Verified.{HashLaws}
use oidc_demo.Store.Clients
use oidc_demo.Management.Changes.{Rotates}
use oidc_demo.Server.Clients.{rotated_by}
use oidc_demo.Server.Routes.{ManagementRoute, management, serve}

module _ (env : Env) (laws : GormLaws env.gorm) (finds : FindsSucceed env.gorm) where
  client_found :
      (key : String) (w : World)
      → Clients.find_by_client_id env key w
        ≡ (ok (find? (λ c. str_eq c.client_id key) w.clients), advance env w)
  unfolding Clients.find_by_client_id first
  client_found key w =
      let (o, e) = finds.answer w.tick (λ c. str_eq c.client_id key) w.clients in
      ap (λ reply. read_reply env clients reply w) e
      ∙ ap (λ x. (ok x, advance env w))
          (laws.first_done w.tick (λ c. str_eq c.client_id key) w.clients e)

  active : (c : Client) → c.status ≡ "active" → not (is_active c) ≡ false
  active c h = ap (λ s. not (str_eq s "active")) h

  -- An active client with the right secret is let in.
  pub authenticates :
      (key secret : String) (c : Client) (w : World)
      → find? (λ x. str_eq x.client_id key) w.clients ≡ some c
      → c.status ≡ "active"
      → verify_password env secret c.client_secret_hash ≡ some true
      → authenticate_client env key secret w ≡ (ok c, advance env w)
  unfolding authenticate_client or_raise raise_if pure ◌>>=◌
  authenticates key secret c w found is_on verifies =
      bind-run (Clients.find_by_client_id env key) _ w _ _ (client_found key w)
      ∙ rw (found, verifies, active c is_on) refl

-- The response shows a secret with which the client is let in.
abbrev pub IsOpened : Env → Client → Response → World → Type 0
IsOpened env c response v =
    (secret : String) × (now : Client) × (response
      ≡ json 200 (object (("client_id", text c.client_id) ∷ ("client_secret", text secret) ∷ [])))
    × (authenticate_client env c.client_id secret v ≡ (ok now, advance env v))

module _ (env : Env) (config : Config) (laws : GormLaws env.gorm) (finds : FindsSucceed env.gorm)
    (hashes : HashLaws env) where
  opened :
      (r : Request) (c : Client) (w : World) (response : Response) (v : World)
      → env.uuid_parse (r.param "id") ≡ some c.id
      → find? (λ x. x.id == c.id) w.clients ≡ some c
      → find? (λ x. str_eq x.client_id c.client_id) w.clients ≡ some c
      → c.status ≡ "active"
      → Rotates env r w response v
      → IsOpened env c response v
  opened r c w response v named by_id by_key is_on h =
      let there =
        find-change (λ x. str_eq x.client_id c.client_id) (λ x. x.id == h.id) renewed w.clients c
          (λ x. refl) by_key in
      (
        h.secret,
        renewed c,
        h.shown
            ∙ ap
                (λ (x : Client). json 200 (
                  object (("client_id", text x.client_id) ∷ ("client_secret", text h.secret) ∷ [])))
                same_client,
        authenticates env laws finds c.client_id h.secret (renewed c) v
            (ap (λ (x : World). find? (λ y. str_eq y.client_id c.client_id) x.clients) h.rest
              ∙ there
              ∙ ap (λ b. some (if b then renewed c else c)) is_it)
            is_on h.verifies,
      )
    where
      renewed : Client → Client
      renewed x = record x { client_secret_hash = h.hash; updated_at = h.at }

      same_id : h.id ≡ c.id
      same_id = cc

      is_it : (c.id == h.id) ≡ true
      is_it = ap (λ n. c.id == n) same_id ∙ ==_refl c.id

      same_client : h.client ≡ c
      same_client =
          some_same
            (sym h.is_found ∙ ap (λ n. find? (λ (x : Client). x.id == n) w.clients) same_id ∙ by_id)
        where
          some_same : {a b : Client} → some a ≡ some b → a ≡ b
          some_same e = cc

  -- If the secret of an active client is rotated, and no lookup fails, the secret that the response shows
  -- authenticates that client in the state that the request leaves.
  pub rotated_secret_authenticates :
      (r : Request) (c : Client) (w : World)
      → env.uuid_parse (r.param "id") ≡ some c.id
      → find? (λ x. x.id == c.id) w.clients ≡ some c
      → find? (λ x. str_eq x.client_id c.client_id) w.clients ≡ some c
      → c.status ≡ "active"
      → (serve env config (management ManagementRoute.rotate_secret) r w).0.status < 400
      → IsOpened env c
          (serve env config (management ManagementRoute.rotate_secret) r w).0
          (serve env config (management ManagementRoute.rotate_secret) r w).1
  rotated_secret_authenticates r c w named by_id by_key is_on h =
      opened r c w _ _ named by_id by_key is_on (rotated_by env config laws hashes r w h)
