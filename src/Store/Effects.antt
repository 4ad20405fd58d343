-- ===== src/Store/Effects.antt =====
-- What the revocations of the three repositories write, when they succeed.
use oidc_demo.Base.{ℕ, suc, Bool, List, map, ◌≡◌, ap, ◌∙◌, ◌&&◌, change}
use oidc_demo.Gorm.{GormLaws}
use oidc_demo.Model.{Time, Session, AccessToken, RefreshToken}
use oidc_demo.World.{World, Env, sessions, access_tokens, refresh_tokens}
use oidc_demo.Outcome.{Ensures, ensures-bind, ensures-time_now, ensures-updates}
use oidc_demo.Store.Sessions
use oidc_demo.Store.AccessTokens
use oidc_demo.Store.RefreshTokens

abbrev pub sessions_after : (Session → Bool) → Time × Time → World → List Session
sessions_after p t w =
    map (change (λ s. p s && Sessions.live s) (Sessions.revoked t.0 t.1)) w.sessions

abbrev pub access_tokens_after : (AccessToken → Bool) → Time × Time → World → List AccessToken
access_tokens_after p t w =
    map (change (λ s. p s && AccessTokens.live s) (AccessTokens.revoked t.0 t.1)) w.access_tokens

abbrev pub refresh_tokens_after : (RefreshToken → Bool) → Time × Time → World → List RefreshToken
refresh_tokens_after p t w =
    map (change (λ s. p s && RefreshTokens.live s) (RefreshTokens.revoked t.0 t.1)) w.refresh_tokens

module _ (env : Env) (laws : GormLaws env.gorm) where
  pub ensures-sessions :
      (p : Session → Bool) (w : World)
      → Ensures (Sessions.revoke_where env p) w (λ _ v.
        (t : Time × Time) × (n : ℕ) × (v ≡ record w { tick = n; sessions = sessions_after p t w }))
  unfolding Sessions.revoke_where
  ensures-sessions p w = ensures-bind (ensures-time_now env w) λ now w1 e1. record {
    at = λ k v run.
        let (at, e2) = (ensures-updates env sessions laws _ _ w1).at k v run in
        (
          (now, at),
          suc (suc w.tick),
          e2
              ∙ ap
                  (λ (x : World). record x {
                    tick = suc x.tick;
                    sessions = sessions_after p (now, at) x;
                  })
                  e1.1,
        );
  }

  pub ensures-access_tokens :
      (p : AccessToken → Bool) (w : World)
      → Ensures (AccessTokens.revoke_where env p) w (λ _ v.
        (t : Time × Time) × (n : ℕ) × (v
          ≡ record w { tick = n; access_tokens = access_tokens_after p t w }))
  unfolding AccessTokens.revoke_where
  ensures-access_tokens p w = ensures-bind (ensures-time_now env w) λ now w1 e1. record {
    at = λ k v run.
        let (at, e2) = (ensures-updates env access_tokens laws _ _ w1).at k v run in
        (
          (now, at),
          suc (suc w.tick),
          e2
              ∙ ap
                  (λ (x : World). record x {
                    tick = suc x.tick;
                    access_tokens = access_tokens_after p (now, at) x;
                  })
                  e1.1,
        );
  }

  pub ensures-refresh_tokens :
      (p : RefreshToken → Bool) (w : World)
      → Ensures (RefreshTokens.revoke_where env p) w (λ _ v.
        (t : Time × Time) × (n : ℕ) × (v
          ≡ record w { tick = n; refresh_tokens = refresh_tokens_after p t w }))
  unfolding RefreshTokens.revoke_where
  ensures-refresh_tokens p w = ensures-bind (ensures-time_now env w) λ now w1 e1. record {
    at = λ k v run.
        let (at, e2) = (ensures-updates env refresh_tokens laws _ _ w1).at k v run in
        (
          (now, at),
          suc (suc w.tick),
          e2
              ∙ ap
                  (λ (x : World). record x {
                    tick = suc x.tick;
                    refresh_tokens = refresh_tokens_after p (now, at) x;
                  })
                  e1.1,
        );
  }
