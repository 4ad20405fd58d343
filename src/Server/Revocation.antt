-- ===== src/Server/Revocation.antt =====
-- A revoked access token opens nothing at the userinfo endpoint.
use oidc_demo.Base.{
  String, true, Option, none, some, ◌≡◌, refl, sym, ap, ◌∙◌, subst, find?, has_mark, is_some,
  str_eq, strip_prefix, arith,
}
use oidc_demo.Gorm.{GormLaws}
use oidc_demo.Model.{AccessToken, AccessTokenResult}
use oidc_demo.World.{
  Env, World, Exec, M, Error, Result, ok, err, or_raise, map_err, result_map_err, access_tokens,
  clients, sessions,
}
use oidc_demo.Http.{Request, Response, answer, respond}
use oidc_demo.Outcome.{
  bind-run, bind-fails, Ensures, ensures-bind, ensures-raise_if, ensures-or_raise, ensures-attempt,
  ensures-pure, ensures-first, ensures-find,
}
use oidc_demo.Answers.{Answers, answers_rules}
use oidc_demo.Progress.{access_revoked, Later}
use oidc_demo.Jwt.Tokens.{validate_access_token}
use oidc_demo.Jwt.Progress.{Grows-validate_access_token}
use oidc_demo.Oidc.Config.{Config}
use oidc_demo.Oidc.Revoke.{join_none}
use oidc_demo.Oidc.UserInfo
use oidc_demo.Oidc.UserInfo.{find_live, user_info}
use oidc_demo.Store.AccessTokens
use oidc_demo.Server.Routes.{Route, serve, Reach}
use oidc_demo.Server.Reach.{reach-Later}

abbrev Unauthorized : Response → Type 0
Unauthorized r = r.status ≡ 401

nested :
    (o : Option (Option AccessToken)) {t : AccessToken} → join_none o ≡ some t → o ≡ some (some t)
nested none h = absurd (cc)
nested (some o) h = ap some h

marked_some :
    {o : Option AccessToken} {t : AccessToken}
    → o ≡ some t
    → has_mark (λ x. is_some x.revoked_at) o ≡ true
    → is_some t.revoked_at ≡ true
marked_some h m = ground arith

module _ (env : Env) (laws : GormLaws env.gorm) where
  preloaded_row :
      (found : Option AccessToken) (w : World)
      → Ensures
          (AccessTokens.preload env found)
          w
          (λ o v. (t : AccessToken) → o ≡ some t → found ≡ some t)
  unfolding AccessTokens.preload
  preloaded_row none w = ensures-pure none w _ (λ t e. e)
  preloaded_row (some t) w = ensures-bind (ensures-find env clients laws _ w) λ rows w1 e1.
      ensures-bind (ensures-find env sessions laws _ w1)
        λ rows' w2 e2. ensures-pure _ w2 _ (λ t e. e)

  found_by_jti :
      (jti : String) (w : World)
      → Ensures (AccessTokens.find_by_jti env jti) w (λ o v.
        (t : AccessToken) → o ≡ some t → find? (λ t. str_eq t.jti jti) w.access_tokens ≡ some t)
  unfolding AccessTokens.find_by_jti
  found_by_jti jti w = ensures-bind (ensures-first env access_tokens laws _ w) λ found w1 e1.
      record { at = λ o v run t e. sym e1.0 ∙ (preloaded_row found w1).at o v run t e }

  no_live_row :
      (jti : String) (w : World)
      → access_revoked jti w ≡ true
      → Ensures (find_live env jti) w (λ _ _. ⊥)
  unfolding find_live
  no_live_row jti w revoked = ensures-bind (ensures-attempt (found_by_jti jti w)) λ found w1 e1.
      ensures-bind (ensures-or_raise _ _ w1) λ token w2 e2.
        ensures-bind (ensures-raise_if _ _ w2) λ u w3 e3.
          let on = marked_some (e1 (some token) (nested found e2.0) token refl) revoked in
          ensures-pure token w3 _ (absurd (cc))

  Unauthorized-find_live : (jti : String) (w : World) → Answers (find_live env jti) w Unauthorized
  unfolding find_live
  Unauthorized-find_live jti w = search answers_rules depth 14

failed_with :
    {A : Type 0} {m : Exec Response A} {w : World} (r : Result Response A) (v : World)
    → m w ≡ (r, v)
    → Answers m w Unauthorized
    → Ensures m w (λ _ _. ⊥)
    → (e : Response) × (v : World) × (m w ≡ (err e, v)) × Unauthorized e
failed_with (ok a) v run answers never = absurd (never.at a v run)
failed_with (err e) v run answers never = (e, v, run, answers.at e v run)

given :
    {A : Type 0} {o : Option A} {a : A} (e : Response) (w : World)
    → o ≡ some a
    → or_raise o e w ≡ (ok a, w)
unfolding or_raise
given e w h = ap (λ o. or_raise o e w) h

validated :
    (f : Error → Response) (m : M AccessTokenResult) {w u : World} {a : AccessTokenResult}
    → m w ≡ (ok a, u)
    → map_err f m w ≡ (ok a, u)
unfolding map_err
validated f m h = ap (λ x. (result_map_err f x.0, x.1)) h

status_of :
    (m : Exec Response Response) {w v : World} {e : Response}
    → m w ≡ (err e, v)
    → e.status ≡ 401
    → (respond m w).0.status ≡ 401
unfolding respond
status_of m h s = ap (λ x. (answer x.0).status) h ∙ s

module _ (env : Env) (config : Config) (laws : GormLaws env.gorm) where
  -- An access token that is revoked, by whatever request, opens nothing: in every state that the
  -- server comes to after, a request to the userinfo endpoint whose bearer token is validated as that
  -- token is answered with status 401.
  pub revoked_token_is_refused :
      (jti token : String) (r : Request) (result : AccessTokenResult) (w v u : World)
      → access_revoked jti w ≡ true
      → Reach env config w v
      → strip_prefix "Bearer " r.authorization ≡ some token
      → validate_access_token env config.enc_key token v ≡ (ok result, u)
      → result.jti ≡ jti
      → (serve env config Route.userinfo r v).0.status ≡ 401
  unfolding serve UserInfo.handle user_info
  revoked_token_is_refused jti token r result w v u revoked reach bearer valid same =
      let there = (reach-Later env config laws reach).access jti revoked in
      let later : Later v u =
        subst (λ x. Later v x) (ap (λ x. x.1) valid)
          ((Grows-validate_access_token env config.enc_key token).at v) in
      let on = subst (λ j. access_revoked j u ≡ true) (sym same) (later.access jti there) in
      let (e, u', run, s) =
        failed_with (find_live env result.jti u).0 (find_live env result.jti u).1 refl
          (Unauthorized-find_live env laws result.jti u) (no_live_row env laws result.jti u on) in
      status_of _
        (bind-run (or_raise _ _) _ v token v (given _ v bearer)
          ∙ bind-run (map_err _ _) _ v result u (validated _ _ valid)
          ∙ bind-fails (find_live env result.jti) _ u e u' run)
        s
