-- ===== src/Server/NewSecret.antt =====
-- POST /management/v1/tenants/:tenant_id/clients: the secret that is shown opens the client.
use oidc_demo.Base.{
  String, Bool, true, ◌≡◌, ◌<◌, ◌||◌, ◌∷◌, ◌++◌, [], find-added, ◌==◌, str_eq, eq_refl, eq_iff, sym,
  arith,
}
use oidc_demo.Gorm.{GormLaws, FindsSucceed}
use oidc_demo.Model.{Client}
use oidc_demo.World.{World, Env, ok, advance}
use oidc_demo.Http.{Request, Response, text, json, object}
use oidc_demo.Oidc.Config.{Config}
use oidc_demo.Oidc.Client.{authenticate_client}
use oidc_demo.Crypto.Argon2id.Verified.{HashLaws}
use oidc_demo.Store.Clients
use oidc_demo.Management.Client.{to_client_response}
use oidc_demo.Management.CreatedClient.{AddsClient}
use oidc_demo.Server.Clients.{created_client_is_sound}
use oidc_demo.Server.Secrets.{authenticates}
use oidc_demo.Server.Routes.{ManagementRoute, management, serve}

-- The response shows a new client and a secret with which that client is let in.
abbrev pub OpensNew : Env → Response → World → Type 0
OpensNew env response v =
    (secret : String) × (client : Client) × (response
      ≡ json 201 (object (to_client_response env client ++ (("client_secret", text secret) ∷ []))))
    × (authenticate_client env client.client_id secret v ≡ (ok client, advance env v))

or_right : (a b : Bool) → b ≡ true → (a || b) ≡ true
or_right a b h = ground arith

turned : (a b : String) → str_eq b a ≡ true → str_eq a b ≡ true
turned a b h = (eq_iff a b).1 (sym ((eq_iff b a).0 h))

module _ (env : Env) (config : Config) (laws : GormLaws env.gorm) (finds : FindsSucceed env.gorm)
    (hashes : HashLaws env) where
  opens :
      (r : Request) (w : World) (response : Response) (v : World)
      → AddsClient env r w response v
      → OpensNew env response v
  opens r w response v h = (
    h.secret,
    h.client,
    h.shown,
    authenticates env laws finds h.client.client_id h.secret h.client v
        (find-added (λ x. str_eq x.client_id h.client.client_id) (Clients.clash h.client)
          (λ s same. or_right (h.client.id == s.id) _ (turned _ _ same))
          (eq_refl h.client.client_id) h.is_new h.is_added)
        h.is_active h.verifies,
  )

  -- If the request to create a client is answered with a status below 400, and no lookup fails, the
  -- secret that the response shows authenticates the client that it shows, in the state that the request
  -- leaves.
  pub created_client_authenticates :
      (r : Request) (w : World)
      → (serve env config (management ManagementRoute.create_client) r w).0.status < 400
      → OpensNew env
          (serve env config (management ManagementRoute.create_client) r w).0
          (serve env config (management ManagementRoute.create_client) r w).1
  created_client_authenticates r w h =
      opens r w _ _ (created_client_is_sound env config laws hashes r w h)
