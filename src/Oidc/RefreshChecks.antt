-- ===== src/Oidc/RefreshChecks.antt =====
-- What a successful check of a refresh token found in the database.
use oidc_demo.Base.{
  subst, ℕ, String, false, Option, none, some, List, ◌≡◌, sym, ap, ◌∙◌, find?, keep, ◌≤◌, ltb,
  str_eq, ◌==◌, arith,
}
use oidc_demo.Gorm.{GormLaws}
use oidc_demo.Env.{Env}
use oidc_demo.Model.{Session, AccessToken, RefreshToken}
use oidc_demo.World.{World, advance, refresh_tokens, access_tokens, sessions, clients}
use oidc_demo.Outcome.{
  Ensures, ensures-bind, ensures-pure, ensures-raise, ensures-raise_if, ensures-if,
  ensures-time_now, ensures-first, ensures-find, ensures-ignore,
}
use oidc_demo.Quiet.{
  ReadBetween, read-now, read-within, ensures-forward, Ticked, Quiet, quiet_rules, ensures-Quiet,
}
use oidc_demo.Store.AuthCodes.{session_or_zero}
use oidc_demo.Store.RefreshTokens
use oidc_demo.Store.RefreshTokens.{Loaded, access_token_or_zero}
use oidc_demo.Oidc.Refresh.{check_session, check_live, check_refresh_token, reject_reused}
use oidc_demo.Oidc.Checks.{not_used}

-- The row of a token with the rows that it points at, as the query preloads them.
abbrev pub loaded : RefreshToken → World → Loaded
loaded rt w = record {
  token = rt;
  session = session_or_zero (keep (λ s. s.id == rt.session_id) w.sessions);
  access_token = access_token_or_zero (keep (λ a. a.id == rt.access_token_id) w.access_tokens);
}

Quiet-preload : (env : Env) (o : Option RefreshToken) → Quiet (RefreshTokens.preload env o)
unfolding RefreshTokens.preload
Quiet-preload env none = search quiet_rules depth 14
Quiet-preload env (some rt) = search quiet_rules depth 14

pub Quiet-find_by_token_hash :
    (env : Env) (hash : String) → Quiet (RefreshTokens.find_by_token_hash env hash)
unfolding RefreshTokens.find_by_token_hash
Quiet-find_by_token_hash env hash = search (quiet_rules, Quiet-preload) depth 14

-- A token in its time, of a session that is neither revoked nor over.
-- Both times are compared with the clock as it is read between the states `w` and `v`.
pub record IsLive (env : Env) (w v : World) (rt : RefreshToken) (session : Session) : Type 0 where
  pub not_revoked : rt.revoked_at ≡ none
  pub in_time : ReadBetween env w v (λ now. now ≤ rt.expires_at)
  pub session_not_revoked : session.revoked_at ≡ none
  pub session_in_time : ReadBetween env w v (λ now. now ≤ session.expires_at)

pub IsLive-within :
    (env : Env) (w v w' v' : World) (rt : RefreshToken) (s : Session)
    → w'.tick ≤ w.tick
    → v.tick ≤ v'.tick
    → IsLive env w v rt s
    → IsLive env w' v' rt s
IsLive-within env w v w' v' rt s h k p = record {
  not_revoked = p.not_revoked;
  in_time = read-within env (λ t. t ≤ rt.expires_at) w v w' v' h k p.in_time;
  session_not_revoked = p.session_not_revoked;
  session_in_time = read-within env (λ t. t ≤ s.expires_at) w v w' v' h k p.session_in_time;
}

in_time : (expires_at now : ℕ) → ltb expires_at now ≡ false → now ≤ expires_at
in_time expires_at now h = ground arith

abbrev sessions_of : RefreshToken → World → List Session
sessions_of rt w = keep (λ s. s.id == rt.session_id) w.sessions

-- The three parts of the answer, as one record.
preloaded :
    (rt : RefreshToken) (l : Loaded) (w : World) {tokens : List AccessToken} {found : List Session}
    → tokens ≡ keep (λ a. a.id == rt.access_token_id) w.access_tokens
    → found ≡ sessions_of rt w
    → ◌≡◌ {A = Loaded}
        (record {
          token = rt;
          session = session_or_zero found;
          access_token = access_token_or_zero tokens;
        })
        l
    → ◌≡◌ {A = Option RefreshToken} (some rt) (some l.token) × (l ≡ loaded l.token w)
preloaded rt l w t f p = (
  ap (λ x. some x.token) p,
  sym p
      ∙ (λ i. record {
        token = rt;
        session = session_or_zero (f i);
        access_token = access_token_or_zero (t i);
      })
      ∙ ap (λ x. loaded x.token w) p,
)

module _ (env : Env) (laws : GormLaws env.gorm) where
  ensures-preload :
      (found : Option RefreshToken) (w : World)
      → Ensures
          (RefreshTokens.preload env found)
          w
          (λ o v. (l : Loaded) → o ≡ some l → (found ≡ some l.token) × (l ≡ loaded l.token w))
  unfolding RefreshTokens.preload
  ensures-preload none w = ensures-pure none w _ (λ l e. absurd (cc))
  ensures-preload (some rt) w =
      ensures-bind (ensures-find env access_tokens laws _ w) λ tokens w1 e1.
        ensures-bind (ensures-find env clients laws _ w1) λ rows w2 e2.
          ensures-bind (ensures-find env sessions laws _ w2) λ found w3 e3.
            ensures-pure _ w3 _ (λ l e.
              preloaded rt l w e1.0 (e3.0 ∙ ap (sessions_of rt) (e2.1 ∙ ap (advance env) e1.1))
                (cc))

  pub ensures-find_by_token_hash :
      (hash : String) (w : World)
      → Ensures (RefreshTokens.find_by_token_hash env hash) w (λ o v.
        Ticked w v
        × ((l : Loaded)
            → o ≡ some l
            → (find? (λ t. str_eq t.token_hash hash) w.refresh_tokens ≡ some l.token)
              × (l ≡ loaded l.token w)))
  unfolding RefreshTokens.find_by_token_hash
  ensures-find_by_token_hash hash w = ensures-Quiet (Quiet-find_by_token_hash env hash) (
      ensures-bind (ensures-first env refresh_tokens laws _ w) λ found w1 e1. record {
        at = λ o v h l e.
            let (same, rest) = (ensures-preload found w1).at o v h l e in
            (sym e1.0 ∙ same, rest ∙ ap (loaded l.token) e1.1);
      })

  -- A revoked token never gets through.
  ensures-reject_reused :
      (rt : RefreshToken) {Q : Unit → World → Type 0} (w : World)
      → Ensures (reject_reused env rt) w Q
  unfolding reject_reused
  ensures-reject_reused rt w = ensures-bind (ensures-ignore _ w) λ u w1 e1.
      ensures-bind (ensures-ignore _ w1)
        λ u w2 e2. ensures-bind (ensures-ignore _ w2) λ u w3 e3. ensures-raise _ w3 _

  ensures-check_session :
      (s : Session) (w : World)
      → Ensures
          (check_session env s)
          w
          (λ _ v. (s.revoked_at ≡ none) × ReadBetween env w v (λ now. now ≤ s.expires_at))
  unfolding check_session
  ensures-check_session s w =
      ensures-if _ w (λ on. ensures-raise _ w _)
        λ off. ensures-bind (ensures-time_now env w) λ now w1 e1. record {
          at = λ u v h.
              let (early, e2) = (ensures-raise_if _ _ w1).at u v h in
              (
                not_used s.revoked_at off,
                read-now env (λ t. t ≤ s.expires_at) w w1 v now e1 e2
                    (in_time s.expires_at now early),
              );
        }

  counted : (w w1 w2 : World) → w1 ≡ advance env w → w1 ≡ w2 → w.tick ≤ w2.tick
  counted w w1 w2 e k =
      subst (λ (x : World). w.tick ≤ x.tick) k
        (subst (λ (x : World). w.tick ≤ x.tick) (sym e) (omega arith))

  Quiet-check_session : (s : Session) → Quiet (check_session env s)
  unfolding check_session
  Quiet-check_session s = search quiet_rules depth 14

  Quiet-check_live : (rt : RefreshToken) (s : Session) → Quiet (check_live env rt s)
  unfolding check_live check_session
  Quiet-check_live rt s = search quiet_rules depth 14

  ensures-check_live :
      (rt : RefreshToken) (s : Session) (w : World)
      → rt.revoked_at ≡ none
      → Ensures (check_live env rt s) w (λ _ v. IsLive env w v rt s)
  unfolding check_live
  ensures-check_live rt s w live = ensures-bind (ensures-time_now env w) λ now w1 e1.
      ensures-bind (ensures-raise_if _ _ w1) λ u w2 e2. record {
        at = λ u v h.
            let (up, (a, b)) =
              (ensures-forward (Quiet-check_session s) (ensures-check_session s w2)).at u v h in
            let first : w.tick ≤ w2.tick = counted w w1 w2 e1.1 e2.1 in
            record {
              not_revoked = live;
              in_time =
                  read-within env (λ t. t ≤ rt.expires_at) w w2 w v (omega arith) up
                    (read-now env (λ t. t ≤ rt.expires_at) w w1 w2 now e1 e2.1
                      (in_time rt.expires_at now e2.0));
              session_not_revoked = a;
              session_in_time =
                  read-within env (λ t. t ≤ s.expires_at) w2 v w v first (omega arith) b;
            };
      }

  pub ensures-check_refresh_token :
      (rt : RefreshToken) (s : Session) (w : World)
      → Ensures (check_refresh_token env rt s) w (λ _ v. Ticked w v × IsLive env w v rt s)
  unfolding check_refresh_token
  ensures-check_refresh_token rt s w =
      ensures-if _ w (λ on. ensures-reject_reused rt w)
        λ off.
          ensures-Quiet (Quiet-check_live rt s)
            (ensures-check_live rt s w (not_used rt.revoked_at off))
