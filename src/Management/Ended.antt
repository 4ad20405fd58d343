-- ===== src/Management/Ended.antt =====
-- What a successful incident response leaves: which rows it has revoked, and that it has changed
-- nothing else.
use oidc_demo.Base.{
  ℕ, Bool, true, false, List, [], ◌∷◌, map, ◌≡◌, refl, ap, ◌∙◌, ◌&&◌, change, if◌then◌else◌,
}
use oidc_demo.Gorm.{GormLaws}
use oidc_demo.Model.{Uuid, Time, Session}
use oidc_demo.World.{World, Env, M}
use oidc_demo.Outcome.{Ensures, ensures-bind, ensures-map_err, ensures-pure}
use oidc_demo.Store.Sessions
use oidc_demo.Store.Effects.{
  sessions_after, access_tokens_after, refresh_tokens_after, ensures-sessions,
  ensures-access_tokens, ensures-refresh_tokens,
}
use oidc_demo.Store.AccessTokens
use oidc_demo.Store.AccessTokens.{in_session}
use oidc_demo.Store.RefreshTokens
use oidc_demo.Management.Incident.{revoke_each}

-- The live sessions that pass the test are revoked, and with them the live tokens of the sessions
-- that pass it. The rest of the database is as it was.
pub record Ended (p : Session → Bool) (w v : World) : Type 0 where
  pub session_time : Time × Time
  pub access_time : Time × Time
  pub refresh_time : Time × Time
  pub tick : ℕ
  pub state : v ≡ record w {
    tick = tick;
    sessions =
        map
          (change (λ s. p s && Sessions.live s) (Sessions.revoked session_time.0 session_time.1))
          w.sessions;
    access_tokens =
        map
          (change
            (λ t. in_session p w.sessions t.session_id && AccessTokens.live t)
            (AccessTokens.revoked access_time.0 access_time.1))
          w.access_tokens;
    refresh_tokens =
        map
          (change
            (λ t. in_session p w.sessions t.session_id && RefreshTokens.live t)
            (RefreshTokens.revoked refresh_time.0 refresh_time.1))
          w.refresh_tokens;
  }

in_session-map :
    (p : Session → Bool) (f : Session → Session) (rows : List Session) (id : Uuid)
    → ((s : Session) → p (f s) ≡ p s)
    → ((s : Session) → (f s).id ≡ s.id)
    → in_session p (map f rows) id ≡ in_session p rows id
in_session-map p f [] id hp hid = refl
in_session-map p f (s ∷ rows) id hp hid = rw (hp s, hid s, in_session-map p f rows id hp hid) refl

module _ (env : Env) (laws : GormLaws env.gorm) where
  -- The subqueries read the sessions as the first write has left them, and find the same ones.
  same_sessions :
      (p : Session → Bool) (t : Time × Time) (w : World) (id : Uuid)
      → ((now at : Time) (s : Session) → p (Sessions.revoked now at s) ≡ p s)
      → in_session p (sessions_after p t w) id ≡ in_session p w.sessions id
  same_sessions p t w id stable =
      in_session-map p (change (λ s. p s && Sessions.live s) (Sessions.revoked t.0 t.1)) w.sessions
        id
        (λ s.
          elim (p s && Sessions.live s)
            as (λ b. p (if b then Sessions.revoked t.0 t.1 s else s) ≡ p s) [
              | true ↦ stable t.0 t.1 s
              | false ↦ refl
            ])
        (λ s.
          elim (p s && Sessions.live s)
            as (λ b. (if b then Sessions.revoked t.0 t.1 s else s).id ≡ s.id) [
              | true ↦ refl
              | false ↦ refl
            ])

  -- The state after the three writes, if the subqueries answer `found`.
  abbrev after_all :
      (Session → Bool) → (Uuid → Bool) → Time × Time → Time × Time → Time × Time → ℕ → World → World
  after_all p found st at rt n w = record w {
    tick = n;
    sessions = sessions_after p st w;
    access_tokens = access_tokens_after (λ t. found t.session_id) at w;
    refresh_tokens = refresh_tokens_after (λ t. found t.session_id) rt w;
  }

  abbrev pub access_of : (Session → Bool) → M ℕ
  access_of p w = AccessTokens.revoke_where env (λ t. in_session p w.sessions t.session_id) w

  abbrev pub refresh_of : (Session → Bool) → M ℕ
  refresh_of p w = RefreshTokens.revoke_where env (λ t. in_session p w.sessions t.session_id) w

  pub ensures-each :
      (p : Session → Bool) (w : World)
      → ((now at : Time) (s : Session) → p (Sessions.revoked now at s) ≡ p s)
      → Ensures
          (revoke_each (Sessions.revoke_where env p) (access_of p) (refresh_of p))
          w
          (λ _ v. Ended p w v)
  unfolding revoke_each
  ensures-each p w stable =
      ensures-bind (ensures-map_err _ (ensures-sessions env laws p w)) λ k w1 (st, n1, e1).
        ensures-bind
          (ensures-map_err _ {m = access_of p} (record {
            at =
                (ensures-access_tokens env laws (λ t. in_session p w1.sessions t.session_id) w1).at;
          }))
          λ k' w2 (at, n2, e2).
            ensures-bind
              (ensures-map_err _ {m = refresh_of p} (record {
                at =
                    (ensures-refresh_tokens env laws (λ t. in_session p w2.sessions t.session_id)
                      w2).at;
              }))
              λ k'' w3 (rt, n3, e3). ensures-pure _ w3 _ (record {
                session_time = st;
                access_time = at;
                refresh_time = rt;
                tick = n3;
                state =
                    e3
                    ∙ ap
                        (λ (x : World). record x {
                          tick = n3;
                          refresh_tokens =
                              refresh_tokens_after (λ t. in_session p x.sessions t.session_id) rt x;
                        })
                        (e2
                          ∙ ap
                              (λ (x : World). record x {
                                tick = n2;
                                access_tokens =
                                    access_tokens_after (λ t. in_session p x.sessions t.session_id)
                                      at x;
                              })
                              e1)
                    ∙ (λ i. after_all p (λ id. same_sessions p st w id stable i) st at rt n3 w);
              })
