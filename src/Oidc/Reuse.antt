-- ===== src/Oidc/Reuse.antt =====
-- What the replay of a code or of a refresh token brings about.
use oidc_demo.Base.{
  ℕ, Bool, true, false, some, List, [], ◌∷◌, map, any, ◌≡◌, refl, ap, ◌∙◌, ◌==◌, ◌&&◌, not, is_some,
  change, Bool-cases, inl, inr, arith,
}
use oidc_demo.Gorm.{GormLaws, UpdatesSucceed}
use oidc_demo.Model.{
  Uuid, Client, Session, AuthorizationCode, RefreshToken, has_grant_type, is_used,
}
use oidc_demo.World.{
  World, Env, Error, M, ok, err, invalid_grant, ignore, raise_if, or_raise, access_tokens,
  refresh_tokens, raise, ◌>>◌,
}
use oidc_demo.Outcome.{bind-run, bind-fails}
use oidc_demo.Reliable.{ignored, stamped_runs}
use oidc_demo.Jwt.Tokens.{sha256_hex}
use oidc_demo.Store.AuthCodes
use oidc_demo.Store.AccessTokens
use oidc_demo.Store.RefreshTokens
use oidc_demo.Store.RefreshTokens.{Loaded}
use oidc_demo.Store.Effects.{ensures-access_tokens, ensures-refresh_tokens}
use oidc_demo.Oidc.Config.{Config}
use oidc_demo.Oidc.Client.{authenticate_client}
use oidc_demo.Oidc.AuthCode.{
  AuthCodeGrantInput, reject_used, check_auth_code, handle_auth_code_grant_logic,
}
use oidc_demo.Oidc.Refresh.{
  RefreshTokenGrantInput, reject_reused, check_refresh_token, handle_refresh_token_grant_logic,
}

-- Whether the session has an access token, or a refresh token, that is not revoked.
abbrev pub has_live_access : Uuid → World → Bool
has_live_access id w = any (λ t. t.session_id == id && AccessTokens.live t) w.access_tokens

abbrev pub has_live_refresh : Uuid → World → Bool
has_live_refresh id w = any (λ t. t.session_id == id && RefreshTokens.live t) w.refresh_tokens

none_left :
    {A : Type 0} (q : A → Bool) (f : A → A) (t : List A)
    → ((x : A) → q (f x) ≡ false)
    → any q (map (change q f) t) ≡ false
none_left q f [] off = refl
none_left q f (x ∷ t) off = elim (Bool-cases (q x)) [
  | inl e ↦ rw (e, off x) (none_left q f t off)
  | inr e ↦ rw (e, e) (none_left q f t off)
]

and_false : (b : Bool) → (b && false) ≡ false
and_false b = ground arith

module _ (env : Env) (reliable : UpdatesSucceed env.gorm) where
  module _ (laws : GormLaws env.gorm) where
    access_ended :
        (id : Uuid) (w : World)
        → (k : ℕ) × (v : World) × (AccessTokens.revoke_by_session_id env id w ≡ (ok k, v))
          × (has_live_access id v ≡ false)
    unfolding AccessTokens.revoke_by_session_id AccessTokens.revoke_where
    access_ended id w =
        let (k, v, run) = stamped_runs env reliable access_tokens _ AccessTokens.revoked w in
        let ((now, at), n, e) =
          (ensures-access_tokens env laws (λ t. t.session_id == id) w).at k v run in
        (
          k,
          v,
          run,
          ap (has_live_access id) e
              ∙ none_left (λ t. t.session_id == id && AccessTokens.live t)
                  (AccessTokens.revoked now at) w.access_tokens (λ t. and_false _),
        )

    -- The refresh tokens' write leaves the access tokens.
    refresh_ended :
        (id : Uuid) (w : World)
        → (k : ℕ) × (v : World) × (RefreshTokens.revoke_by_session_id env id w ≡ (ok k, v))
          × (has_live_refresh id v ≡ false)
          × (has_live_access id v ≡ has_live_access id w)
    unfolding RefreshTokens.revoke_by_session_id RefreshTokens.revoke_where
    refresh_ended id w =
        let (k, v, run) = stamped_runs env reliable refresh_tokens _ RefreshTokens.revoked w in
        let ((now, at), n, e) =
          (ensures-refresh_tokens env laws (λ t. t.session_id == id) w).at k v run in
        (
          k,
          v,
          run,
          ap (has_live_refresh id) e
              ∙ none_left (λ t. t.session_id == id && RefreshTokens.live t)
                  (RefreshTokens.revoked now at) w.refresh_tokens (λ t. and_false _),
          ap (has_live_access id) e,
        )

    -- Both writes, and the error after them.
    abbrev both_then_reject : Uuid → M Unit
    both_then_reject id = do
      ignore (AccessTokens.revoke_by_session_id env id)
      ignore (RefreshTokens.revoke_by_session_id env id)
      raise invalid_grant

    both_ended :
        (id : Uuid) (w : World)
        → (v : World) × (both_then_reject id w ≡ (err invalid_grant, v))
          × (has_live_access id v ≡ false)
          × (has_live_refresh id v ≡ false)
    unfolding raise
    both_ended id w =
        let (k, w1, run1, gone) = access_ended id w in
        let (k', w2, run2, gone', kept) = refresh_ended id w1 in
        (
          w2,
          bind-run (ignore _) _ w tt w1 (ignored _ w run1)
              ∙ bind-run (ignore _) _ w1 tt w2 (ignored _ w1 run2),
          kept ∙ gone,
          gone',
        )

    reject_reused_runs :
        (rt : RefreshToken) (w : World)
        → (v : World) × (reject_reused env rt w ≡ (err invalid_grant, v))
          × (has_live_access rt.session_id v ≡ false)
          × (has_live_refresh rt.session_id v ≡ false)
    unfolding reject_reused RefreshTokens.mark_reuse_detected
    reject_reused_runs rt w =
        let (k, w1, run) =
          stamped_runs env reliable refresh_tokens (λ t. t.id == rt.id)
            (λ now at t. record t { reuse_detected_at = some now }) w in
        let (v, rest, gone, gone') = both_ended rt.session_id w1 in
        (v, bind-run (ignore _) _ w tt w1 (ignored _ w run) ∙ rest, gone, gone')

    check_refresh_token_runs :
        (rt : RefreshToken) (s : Session) (w : World)
        → is_some rt.revoked_at ≡ true
        → check_refresh_token env rt s w ≡ reject_reused env rt w
    unfolding check_refresh_token
    check_refresh_token_runs rt s w h = rw h refl

    check_auth_code_runs :
        (client : Client) (input : AuthCodeGrantInput) (ac : AuthorizationCode) (w : World)
        → is_used ac ≡ true
        → check_auth_code env client input ac w ≡ reject_used env ac w
    unfolding check_auth_code
    check_auth_code_runs client input ac w h = rw h refl

may_go_on : (b : Bool) (e : Error) (w : World) → b ≡ true → raise_if (not b) e w ≡ (ok tt, w)
unfolding raise_if
may_go_on true e w h = refl
may_go_on false e w h = absurd (cc)

module _ (env : Env) (laws : GormLaws env.gorm) (reliable : UpdatesSucceed env.gorm)
    (config : Config) where
  -- A refresh token that is presented after it was revoked costs its session all tokens: if the
  -- client is authenticated, may refresh, and the token is found and revoked, and no update fails,
  -- then the grant ends with invalid_grant, and no access token and no refresh token of that session
  -- is live.
  pub reused_refresh_token_ends_session :
      (input : RefreshTokenGrantInput) (client : Client) (l : Loaded) (w w1 w2 : World)
      → authenticate_client env input.client_id input.client_secret w ≡ (ok client, w1)
      → has_grant_type client "refresh_token" ≡ true
      → RefreshTokens.find_by_token_hash env (sha256_hex env input.refresh_token) w1
        ≡ (ok (some l), w2)
      → is_some l.token.revoked_at ≡ true
      → (v : World) × (handle_refresh_token_grant_logic env config input w ≡ (err invalid_grant, v))
        × (has_live_access l.token.session_id v ≡ false)
        × (has_live_refresh l.token.session_id v ≡ false)
  unfolding handle_refresh_token_grant_logic or_raise
  reused_refresh_token_ends_session input client l w w1 w2 auth may found revoked =
      let (v, run, gone, gone') = reject_reused_runs env reliable laws l.token w2 in
      (
        v,
        bind-run (authenticate_client env _ _) _ w client w1 auth
            ∙ bind-run (raise_if _ _) _ w1 tt w1 (may_go_on _ _ w1 may)
            ∙ bind-run (RefreshTokens.find_by_token_hash env _) _ w1 (some l) w2 found
            ∙ bind-run (or_raise (some l) invalid_grant) _ w2 l w2 refl
            ∙ bind-fails (check_refresh_token env l.token l.session) _ w2 invalid_grant v
                (check_refresh_token_runs env reliable laws l.token l.session w2 revoked ∙ run),
        gone,
        gone',
      )

  -- An authorization code that is presented after it was used costs its session all tokens: if the
  -- client is authenticated and the code is found and used, and no update fails, then the grant ends
  -- with invalid_grant, and no access token and no refresh token of that session is live.
  pub replayed_code_ends_session :
      (input : AuthCodeGrantInput) (client : Client) (ac : AuthorizationCode) (s : Session)
      (w w1 w2 : World)
      → authenticate_client env input.client_id input.client_secret w ≡ (ok client, w1)
      → AuthCodes.find_by_code env input.code w1 ≡ (ok (some (ac, s)), w2)
      → is_used ac ≡ true
      → (v : World) × (handle_auth_code_grant_logic env config input w ≡ (err invalid_grant, v))
        × (has_live_access ac.session_id v ≡ false)
        × (has_live_refresh ac.session_id v ≡ false)
  unfolding handle_auth_code_grant_logic or_raise reject_used
  replayed_code_ends_session input client ac s w w1 w2 auth found used =
      let (v, run, gone, gone') = both_ended env reliable laws ac.session_id w2 in
      (
        v,
        bind-run (authenticate_client env _ _) _ w client w1 auth
            ∙ bind-run (AuthCodes.find_by_code env _) _ w1 (some (ac, s)) w2 found
            ∙ bind-run (or_raise (some (ac, s)) invalid_grant) _ w2 (ac, s) w2 refl
            ∙ bind-fails (check_auth_code env client input ac) _ w2 invalid_grant v
                (check_auth_code_runs env reliable laws client input ac w2 used ∙ run),
        gone,
        gone',
      )
