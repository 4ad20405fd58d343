-- ===== src/Server/Disabled.antt =====
-- DELETE /management/v1/clients/:id, and what the token endpoint then answers to the client.
use oidc_demo.Base.{
  String, Option, some, ◌≡◌, ◌≢◌, refl, sym, ap, ◌∙◌, subst, ◌<◌, ◌==◌, ==_refl, find?, change,
  str_eq, if◌then◌else◌,
}
use oidc_demo.Gorm.{GormLaws}
use oidc_demo.Model.{Uuid, Client}
use oidc_demo.World.{World, Env, raise}
use oidc_demo.Http.{Request}
use oidc_demo.Outcome.{
  Ensures, ensures-bind, ensures-if, ensures-raise, ensures-raise_if, ensures-map_err,
}
use oidc_demo.Progress.{find-change}
use oidc_demo.Oidc.Config.{Config}
use oidc_demo.Oidc.Client.{authenticate_client, extract_client_credentials}
use oidc_demo.Oidc.Checks.{ensures-authenticate_client}
use oidc_demo.Oidc.AuthCode.{AuthCodeGrantInput, handle_auth_code_grant_logic}
use oidc_demo.Oidc.Refresh.{RefreshTokenGrantInput, handle_refresh_token_grant_logic}
use oidc_demo.Oidc.Token.{grant, token_error, handle_auth_code_grant, handle_refresh_token_grant}
use oidc_demo.Management.Changes.{Disables}
use oidc_demo.Server.Clients.{disabled_by}
use oidc_demo.Server.Refusal.{token_success}
use oidc_demo.Server.Routes.{Route, ManagementRoute, management, serve}

-- The client that a lookup finds is not active.
abbrev IsOff : String → World → Type 0
IsOff key w =
    (c : Client) → find? (λ x. str_eq x.client_id key) w.clients ≡ some c → c.status ≢ "active"

off : (c d : Client) → some c ≡ some d → d.status ≡ "disabled" → c.status ≢ "active"
off c d e h k = apart (sym k ∙ ap (λ (x : Client). x.status) same ∙ h)
  where
    same : c ≡ d
    same = cc

    apart : ¬ (◌≡◌ {A = String} "active" "disabled")
    apart e = cc

Disables-IsOff :
    (env : Env) (r : Request) (key : String) (c : Client) (w v : World)
    → env.uuid_parse (r.param "id") ≡ some c.id
    → find? (λ x. str_eq x.client_id key) w.clients ≡ some c
    → Disables env r w v
    → IsOff key v
Disables-IsOff env r key c w v named found h d e =
    off d (change (λ x. x.id == h.id) disabled c)
      (sym e
        ∙ ap (λ (x : World). find? (λ y. str_eq y.client_id key) x.clients) h.rest
        ∙ find-change (λ x. str_eq x.client_id key) (λ x. x.id == h.id) disabled w.clients c
            (λ x. refl) found)
      (ap (λ b. (if b then disabled c else c).status)
        (ap (λ n. c.id == n) (same_id h.is_named named) ∙ ==_refl c.id))
  where
    disabled : Client → Client
    disabled x = record x { status = "disabled"; updated_at = h.at }

    same_id : {o : Option Uuid} {a b : Uuid} → o ≡ some a → o ≡ some b → a ≡ b
    same_id p q = cc

module _ (env : Env) (config : Config) (laws : GormLaws env.gorm) where
  no_client :
      (key secret : String) (w : World)
      → IsOff key w
      → Ensures (authenticate_client env key secret) w (λ c v. ⊥)
  no_client key secret w is_off = record {
    at = λ c v run.
        let (authentic, ticked) = (ensures-authenticate_client env laws key secret w).at c v run in
        is_off c authentic.is_found authentic.is_active;
  }

  no_code_grant :
      (input : AuthCodeGrantInput) (w : World)
      → IsOff input.client_id w
      → Ensures (handle_auth_code_grant_logic env config input) w (λ _ v. ⊥)
  unfolding handle_auth_code_grant_logic
  no_code_grant input w is_off =
      ensures-bind (no_client input.client_id input.client_secret w is_off) λ c v none. absurd none

  no_refresh_grant :
      (input : RefreshTokenGrantInput) (w : World)
      → IsOff input.client_id w
      → Ensures (handle_refresh_token_grant_logic env config input) w (λ _ v. ⊥)
  unfolding handle_refresh_token_grant_logic
  no_refresh_grant input w is_off =
      ensures-bind (no_client input.client_id input.client_secret w is_off) λ c v none. absurd none

  no_code :
      (r : Request) (w : World)
      → IsOff (extract_client_credentials r).0 w
      → Ensures (handle_auth_code_grant env config r) w (λ _ v. ⊥)
  unfolding handle_auth_code_grant
  no_code r w is_off = ensures-bind (ensures-raise_if _ _ w) λ u w1 e1.
      ensures-bind (ensures-raise_if _ _ w1) λ u w2 e2.
        ensures-bind
          (ensures-map_err _ (
            no_code_grant _ w2
              (subst (λ x. IsOff (extract_client_credentials r).0 x) (e1.1 ∙ e2.1) is_off)))
          λ response w3 none. absurd none

  no_refresh :
      (r : Request) (w : World)
      → IsOff (extract_client_credentials r).0 w
      → Ensures (handle_refresh_token_grant env config r) w (λ _ v. ⊥)
  unfolding handle_refresh_token_grant
  no_refresh r w is_off = ensures-bind (ensures-raise_if _ _ w) λ u w1 e1.
      ensures-bind (ensures-raise_if _ _ w1) λ u w2 e2.
        ensures-bind
          (ensures-map_err _ (
            no_refresh_grant _ w2
              (subst (λ x. IsOff (extract_client_credentials r).0 x) (e1.1 ∙ e2.1) is_off)))
          λ response w3 none. absurd none

  no_grant :
      (r : Request) (w : World)
      → IsOff (extract_client_credentials r).0 w
      → Ensures (grant env config r) w (λ _ v. ⊥)
  unfolding grant
  no_grant r w is_off =
      ensures-if (str_eq (r.form_value "grant_type") "authorization_code")
        {n = if str_eq (r.form_value "grant_type") "refresh_token"
          then handle_refresh_token_grant env config r
          else raise (token_error 400 "unsupported_grant_type" "")}
        w (λ on. no_code r w is_off)
        λ off.
          ensures-if (str_eq (r.form_value "grant_type") "refresh_token")
            {n = raise (token_error 400 "unsupported_grant_type" "")} w
            (λ on. no_refresh r w is_off)
            λ off. ensures-raise (token_error 400 "unsupported_grant_type" "") w _

  -- If the request to delete a client is answered with a status below 400, no token request with the
  -- identifier of that client is answered with status 200 in the state that it leaves.
  pub deleted_client_is_refused :
      (r token_request : Request) (c : Client) (w : World)
      → env.uuid_parse (r.param "id") ≡ some c.id
      → find? (λ x. str_eq x.client_id (extract_client_credentials token_request).0) w.clients
        ≡ some c
      → (serve env config (management ManagementRoute.delete_client) r w).0.status < 400
      → (serve env config Route.token token_request
          (serve env config (management ManagementRoute.delete_client) r w).1).0.status
        ≢ 200
  deleted_client_is_refused r token_request c w named found h k =
      token_success env config token_request
        (serve env config (management ManagementRoute.delete_client) r w).1 {Q = λ _ _. ⊥} k
        (no_grant token_request _
          (Disables-IsOff env r _ c w _ named found (disabled_by env config laws r w h)))
