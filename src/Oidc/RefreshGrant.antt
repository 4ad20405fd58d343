-- ===== src/Oidc/RefreshGrant.antt =====
-- The refresh token grant as a whole: what a success found, and that a token is rotated once.
use oidc_demo.Base.{
  ◌≤◌, ◌≢◌, String, true, none, some, ◌≡◌, refl, sym, ap, ◌∙◌, subst, find?, has_mark, is_some,
  str_eq, ◌==◌, arith, Option, ◌&&◌, not, Bool, false, ℕ,
}
use oidc_demo.Gorm.{GormLaws}
use oidc_demo.Env.{Env}
use oidc_demo.Model.{Client, RefreshToken, has_grant_type}
use oidc_demo.World.{World, ok, refresh_tokens}
use oidc_demo.Http.{TokenResponse}
use oidc_demo.Outcome.{
  Ensures, ensures-bind, ensures-or_raise, ensures-raise_if, ensures-time_now, ensures-updates,
}
use oidc_demo.Quiet.{ensures-forward, Ticked, Ticked-trans}
use oidc_demo.Progress.{
  refresh_revoked, marked-change_hit, ensures-Grows, Grows-ignore, Grows-revoke_access, Grows-bind,
}
use oidc_demo.Jwt.Tokens.{sha256_hex}
use oidc_demo.Store.RefreshTokens
use oidc_demo.Store.RefreshTokens.{Loaded}
use oidc_demo.Store.AccessTokens
use oidc_demo.Oidc.Config.{Config}
use oidc_demo.Oidc.Refresh.{RefreshTokenGrantInput, rotate, handle_refresh_token_grant_logic}
use oidc_demo.Oidc.Checks.{Quiet-authenticate_client, Authentic, ensures-authenticate_client}
use oidc_demo.Oidc.RefreshChecks.{
  Quiet-find_by_token_hash, IsLive-within, loaded, IsLive, ensures-find_by_token_hash,
  ensures-check_refresh_token,
}
use oidc_demo.Oidc.Progress.{Grows-issue_rotated}

-- A successful grant: what it found when it began, and the state `before` in which it began to
-- write, where no table differs from those of the start.
pub record Rotates (env : Env) (config : Config) (input : RefreshTokenGrantInput) (w : World)
    (response : TokenResponse) (v : World) : Type 0 where
  pub client : Client
  pub rt : RefreshToken
  pub before : World
  pub is_client : Authentic env input.client_id input.client_secret w client
  pub may_refresh : has_grant_type client "refresh_token" ≡ true
  pub is_found :
      find? (λ t. str_eq t.token_hash (sha256_hex env input.refresh_token)) w.refresh_tokens
      ≡ some rt
  pub is_live : IsLive env w before rt (loaded rt w).session
  pub reads : Ticked w before
  pub writes : rotate env config client input (loaded rt w) before ≡ (ok response, v)

-- What was read in a state that has only counted calls was there at the start.
start_of :
    (w w1 : World) (hash : String)
    → Ticked w w1
    → (l : Loaded)
    → (find? (λ t. str_eq t.token_hash hash) w1.refresh_tokens ≡ some l.token)
      × (l ≡ loaded l.token w1)
    → (find? (λ t. str_eq t.token_hash hash) w.refresh_tokens ≡ some l.token)
      × (l ≡ loaded l.token w)
start_of w w1 hash (n, e) l h =
    subst
      (λ x.
        (find? (λ t. str_eq t.token_hash hash) x.refresh_tokens ≡ some l.token)
        × (l ≡ loaded l.token x))
      e h

negated : (b : Bool) → not b ≡ false → b ≡ true
negated b h = ground arith

live_hit : (id : ℕ) (o : Option ℕ) → o ≡ none → (id == id && not (is_some o)) ≡ true
live_hit id o h = ground arith

counted :
    (w w1 w2 w3 w4 : World)
    → w.tick ≤ w1.tick
    → w1 ≡ w2
    → w2.tick ≤ w3.tick
    → w3 ≡ w4
    → w.tick ≤ w4.tick
counted w w1 w2 w3 w4 h e k f =
    let start : w.tick ≤ w2.tick = subst (λ (x : World). w.tick ≤ x.tick) e h in
    subst (λ (x : World). w.tick ≤ x.tick) f (omega arith)

live_mark :
    {o : Option RefreshToken} {rt : RefreshToken}
    → o ≡ some rt
    → rt.revoked_at ≡ none
    → has_mark (λ x. is_some x.revoked_at) o ≡ true
    → ⊥
live_mark h live revoked = ground arith

module _ (env : Env) (laws : GormLaws env.gorm) where
  ensures-revoke :
      (hash : String) (rt : RefreshToken) (w : World)
      → rt.revoked_at ≡ none
      → find? (λ t. str_eq t.token_hash hash) w.refresh_tokens ≡ some rt
      → Ensures (RefreshTokens.revoke env rt.id) w (λ _ v. refresh_revoked hash v ≡ true)
  unfolding RefreshTokens.revoke
  ensures-revoke hash rt w live h = ensures-bind (ensures-time_now env w) λ now w1 e1. record {
    at = λ k v run.
        let (at, e2) = (ensures-updates env refresh_tokens laws _ _ w1).at k v run in
        subst (λ x. refresh_revoked hash x ≡ true) (sym e2)
          (marked-change_hit (λ x. str_eq x.token_hash hash) (λ x. is_some x.revoked_at)
            (λ x. x.id == rt.id && RefreshTokens.live x) (RefreshTokens.revoked now at)
            w1.refresh_tokens rt (λ r. refl)
            (ap (λ x. find? (λ t. str_eq t.token_hash hash) x.refresh_tokens) e1.1 ∙ h)
            (live_hit rt.id rt.revoked_at live) refl);
  }

  module _ (config : Config) where
    ensures-rotate :
        (hash : String) (client : Client) (input : RefreshTokenGrantInput) (l : Loaded) (w : World)
        → l.token.revoked_at ≡ none
        → find? (λ t. str_eq t.token_hash hash) w.refresh_tokens ≡ some l.token
        → Ensures (rotate env config client input l) w (λ _ v. refresh_revoked hash v ≡ true)
    unfolding rotate AccessTokens.revoke
    ensures-rotate hash client input l w live h =
        ensures-bind (ensures-revoke hash l.token w live h) λ k w1 revoked.
          ensures-Grows
            (Grows-bind (Grows-ignore (Grows-revoke_access env laws _))
              λ u. Grows-issue_rotated env laws config client input l)
            w1 λ r v later. later.refresh hash revoked

    pub ensures-handle_refresh_token_grant_logic :
        (input : RefreshTokenGrantInput) (w : World)
        → Ensures (handle_refresh_token_grant_logic env config input) w (Rotates env config input w)
    unfolding handle_refresh_token_grant_logic
    ensures-handle_refresh_token_grant_logic input w =
        ensures-bind
          (ensures-forward (Quiet-authenticate_client env input.client_id input.client_secret)
            (ensures-authenticate_client env laws input.client_id input.client_secret w))
          λ client w1 (up1, q1). ensures-bind (ensures-raise_if _ _ w1) λ u w2 q2.
            ensures-bind
              (ensures-forward (Quiet-find_by_token_hash env (sha256_hex env input.refresh_token))
                (ensures-find_by_token_hash env laws (sha256_hex env input.refresh_token) w2))
              λ found w3 (up3, q3). ensures-bind (ensures-or_raise found _ w3) λ l w4 q4.
                ensures-bind (ensures-check_refresh_token env laws l.token l.session w4) λ u w5 q5.
                  record {
                    at = λ r v run.
                        let ticked = subst (λ x. Ticked w x) q2.1 q1.1 in
                        let start = start_of w w2 _ ticked l (q3.1 l q4.0) in
                        record {
                          client = client;
                          rt = l.token;
                          before = w5;
                          is_client = q1.0;
                          may_refresh = negated _ q2.0;
                          is_found = start.0;
                          is_live =
                              subst (λ x. IsLive env w w5 l.token x.session) start.1
                                (IsLive-within env w4 w5 w w5 l.token l.session
                                  (counted w w1 w2 w3 w4 up1 q2.1 up3 q4.1) (omega arith) q5.1);
                          reads =
                              Ticked-trans w ticked
                                (Ticked-trans w2 q3.0 (subst (λ x. Ticked x w5) (sym q4.1) q5.0));
                          writes =
                              subst (λ x. rotate env config client input x w5 ≡ (ok r, v)) start.1
                                run;
                        };
                  }

    -- A token that has been rotated is revoked from then on.
    pub ensures-refresh_revoked :
        (input : RefreshTokenGrantInput) (w : World)
        → Ensures
            (handle_refresh_token_grant_logic env config input)
            w
            (λ _ v. refresh_revoked (sha256_hex env input.refresh_token) v ≡ true)
    ensures-refresh_revoked input w = record {
      at = λ r v run.
          let done = (ensures-handle_refresh_token_grant_logic input w).at r v run in
          let (n, e) = done.reads in
          (ensures-rotate (sha256_hex env input.refresh_token) done.client input (loaded done.rt w)
              done.before done.is_live.not_revoked
              (ap
                  (λ x.
                    find? (λ t. str_eq t.token_hash (sha256_hex env input.refresh_token))
                      x.refresh_tokens)
                  e
                ∙ done.is_found)).at
            r v done.writes;
    }

    -- A revoked token is never rotated.
    pub revoked_token_fails :
        (input : RefreshTokenGrantInput) (w : World) (r : TokenResponse) (v : World)
        → refresh_revoked (sha256_hex env input.refresh_token) w ≡ true
        → handle_refresh_token_grant_logic env config input w ≢ (ok r, v)
    revoked_token_fails input w r v revoked run =
        let done = (ensures-handle_refresh_token_grant_logic input w).at r v run in
        live_mark done.is_found done.is_live.not_revoked revoked

    -- A successful refresh grant found the active client that the request names and whose secret
    -- it gives, which may use refresh tokens, and the token under the hash of the request's text;
    -- neither the token nor its session was revoked, and the clock, as it was read after the
    -- request came and before anything was written, had passed neither the end of the token nor
    -- that of the session. The response and the new state are those of `rotate` from a state with
    -- the tables of the start.
    pub refresh_grant_is_sound :
        (input : RefreshTokenGrantInput) (w : World) (response : TokenResponse) (v : World)
        → handle_refresh_token_grant_logic env config input w ≡ (ok response, v)
        → Rotates env config input w response v
    refresh_grant_is_sound input w = (ensures-handle_refresh_token_grant_logic input w).at
