-- ===== src/Server/Replay.antt =====
-- An authorization code is redeemed once, and a refresh token is rotated once, whatever requests
-- come between.
use oidc_demo.Base.{String, true, false, ◌≡◌, ◌≢◌, sym, ◌∙◌, subst, str_eq, arith, eq_iff}
use oidc_demo.Gorm.{GormLaws}
use oidc_demo.World.{Env, World}
use oidc_demo.Http.{Request, Response}
use oidc_demo.Outcome.{
  Ensures, ensures-bind, ensures-raise_if, ensures-map_err, ensures-pure, ensures-if,
}
use oidc_demo.Progress.{code_used, refresh_revoked}
use oidc_demo.Jwt.Tokens.{sha256_hex}
use oidc_demo.Oidc.Config.{Config}
use oidc_demo.Oidc.Token.{handle_auth_code_grant, handle_refresh_token_grant, grant}
use oidc_demo.Oidc.CodeGrant.{ensures-code_used, used_code_fails}
use oidc_demo.Oidc.RefreshGrant.{ensures-refresh_revoked, revoked_token_fails}
use oidc_demo.Server.Refusal.{token_success}
use oidc_demo.Server.Routes.{Route, serve, Reach}
use oidc_demo.Server.Reach.{reach-Later}

no : ¬ (false ≡ true)
no h = cc

is_named : (s t : String) → s ≡ t → str_eq s t ≡ true
is_named s t h = ground (arith, eq_iff s t)

named : (s t : String) → str_eq s t ≡ true → s ≡ t
named s t h = ground (arith, eq_iff s t)

one_kind : ¬ (◌≡◌ {A = String} "authorization_code" "refresh_token")
one_kind h = cc

module _ (env : Env) (config : Config) where
  -- A success at the token endpoint comes from the grant that the request names.
  code_route :
      (r : Request) (w : World) {Q : Response → World → Type 0}
      → r.form_value "grant_type" ≡ "authorization_code"
      → Ensures (handle_auth_code_grant env config r) w Q
      → Ensures (grant env config r) w Q
  unfolding grant
  code_route r w kind h = ensures-if _ w (λ on. h) λ off. absurd (no (sym off ∙ is_named _ _ kind))

  refresh_route :
      (r : Request) (w : World) {Q : Response → World → Type 0}
      → r.form_value "grant_type" ≡ "refresh_token"
      → Ensures (handle_refresh_token_grant env config r) w Q
      → Ensures (grant env config r) w Q
  unfolding grant
  refresh_route r w kind h =
      ensures-if _ w (λ on. absurd (one_kind (sym (named _ _ on) ∙ kind)))
        λ off. ensures-if _ w (λ on. h) λ off. absurd (no (sym off ∙ is_named _ _ kind))

  module _ (laws : GormLaws env.gorm) where
    redeemed :
        (r : Request) (w : World)
        → Ensures
            (handle_auth_code_grant env config r)
            w
            (λ _ v. code_used (r.form_value "code") v ≡ true)
    unfolding handle_auth_code_grant
    redeemed r w = ensures-bind (ensures-raise_if _ _ w) λ u w1 e1.
        ensures-bind (ensures-raise_if _ _ w1) λ u w2 e2.
          ensures-bind (ensures-map_err _ (ensures-code_used env laws config _ w2))
            λ response w3 used. ensures-pure _ w3 _ used

    not_redeemed :
        (r : Request) (w : World)
        → code_used (r.form_value "code") w ≡ true
        → Ensures (handle_auth_code_grant env config r) w (λ _ v. ⊥)
    unfolding handle_auth_code_grant
    not_redeemed r w used = ensures-bind (ensures-raise_if _ _ w) λ u w1 e1.
        ensures-bind (ensures-raise_if _ _ w1) λ u w2 e2.
          ensures-bind {P = λ _ v. ⊥}
            (ensures-map_err _ (record {
              at = λ response v run.
                  used_code_fails env laws config _ w2 response v
                    (subst (λ x. code_used (r.form_value "code") x ≡ true) (e1.1 ∙ e2.1) used) run;
            }))
            λ response w3 no. absurd no

    rotated :
        (r : Request) (w : World)
        → Ensures
            (handle_refresh_token_grant env config r)
            w
            (λ _ v. refresh_revoked (sha256_hex env (r.form_value "refresh_token")) v ≡ true)
    unfolding handle_refresh_token_grant
    rotated r w = ensures-bind (ensures-raise_if _ _ w) λ u w1 e1.
        ensures-bind (ensures-raise_if _ _ w1) λ u w2 e2.
          ensures-bind (ensures-map_err _ (ensures-refresh_revoked env laws config _ w2))
            λ response w3 revoked. ensures-pure _ w3 _ revoked

    not_rotated :
        (r : Request) (w : World)
        → refresh_revoked (sha256_hex env (r.form_value "refresh_token")) w ≡ true
        → Ensures (handle_refresh_token_grant env config r) w (λ _ v. ⊥)
    unfolding handle_refresh_token_grant
    not_rotated r w revoked = ensures-bind (ensures-raise_if _ _ w) λ u w1 e1.
        ensures-bind (ensures-raise_if _ _ w1) λ u w2 e2.
          ensures-bind {P = λ _ v. ⊥}
            (ensures-map_err _ (record {
              at = λ response v run.
                  revoked_token_fails env laws config _ w2 response v
                    (subst
                      (λ x.
                        refresh_revoked (sha256_hex env (r.form_value "refresh_token")) x ≡ true)
                      (e1.1 ∙ e2.1) revoked)
                    run;
            }))
            λ response w3 no. absurd no

    -- An authorization code is redeemed at most once: if a request with the authorization_code grant
    -- is answered with status 200, then no such request with the same code is, in any state that the
    -- server comes to from there, whatever requests it has answered in between.
    pub code_redeemed_once :
        (first second : Request) (w v : World)
        → first.form_value "grant_type" ≡ "authorization_code"
        → second.form_value "grant_type" ≡ "authorization_code"
        → second.form_value "code" ≡ first.form_value "code"
        → (serve env config Route.token first w).0.status ≡ 200
        → Reach env config (serve env config Route.token first w).1 v
        → (serve env config Route.token second v).0.status ≢ 200
    code_redeemed_once first second w v kind kind' same ok reach again =
        let used =
          token_success env config first w ok (code_route first w kind (redeemed first w)) in
        let still = (reach-Later env config laws reach).codes (first.form_value "code") used in
        token_success env config second v again (
          code_route second v kind'
            (not_redeemed second v (subst (λ c. code_used c v ≡ true) (sym same) still)))

    -- A refresh token is rotated at most once: if a request with the refresh_token grant is answered
    -- with status 200, then no such request with the same token is, in any state that the server
    -- comes to from there, whatever requests it has answered in between.
    pub refresh_token_rotated_once :
        (first second : Request) (w v : World)
        → first.form_value "grant_type" ≡ "refresh_token"
        → second.form_value "grant_type" ≡ "refresh_token"
        → second.form_value "refresh_token" ≡ first.form_value "refresh_token"
        → (serve env config Route.token first w).0.status ≡ 200
        → Reach env config (serve env config Route.token first w).1 v
        → (serve env config Route.token second v).0.status ≢ 200
    refresh_token_rotated_once first second w v kind kind' same ok reach again =
        let hash = sha256_hex env (first.form_value "refresh_token") in
        let revoked =
          token_success env config first w ok (refresh_route first w kind (rotated first w)) in
        let still = (reach-Later env config laws reach).refresh hash revoked in
        token_success env config second v again (
          refresh_route second v kind' (
            not_rotated second v
              (subst (λ t. refresh_revoked (sha256_hex env t) v ≡ true) (sym same) still)))
