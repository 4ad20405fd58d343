-- ===== src/Oidc/Checks.antt =====
-- What a successful check of a client or of a code found in the database.
use oidc_demo.Base.{
  ◌⊎◌, inl, inr, Bool-cases, ℕ, String, Bool, true, false, Option, none, some, List, ◌≡◌, sym, ap,
  ◌∙◌, not, find?, keep, ◌≤◌, is_some, str_eq, ◌==◌, arith, eq_iff,
}
use oidc_demo.Gorm.{GormLaws}
use oidc_demo.Env.{Env}
use oidc_demo.Crypto.Argon2id.{verify_password}
use oidc_demo.Model.{Client, Session, AuthorizationCode, is_used, is_expired}
use oidc_demo.World.{World, clients, auth_codes, sessions}
use oidc_demo.Outcome.{
  Ensures, ensures-bind, ensures-pure, ensures-raise, ensures-or_raise, ensures-raise_if,
  ensures-if, ensures-time_now, ensures-first, ensures-find, ensures-ignore,
}
use oidc_demo.Quiet.{ReadBetween, read-now, read-within, Ticked, Quiet, quiet_rules, ensures-Quiet}
use oidc_demo.Store.AuthCodes.{session_or_zero}
use oidc_demo.Crypto.{verify_code_challenge}
use oidc_demo.Store.Clients
use oidc_demo.Store.AuthCodes
use oidc_demo.Oidc.Client.{authenticate_client, verified, is_active}
use oidc_demo.Oidc.AuthCode.{
  AuthCodeGrantInput, pkce_fails, check_unused, check_auth_code, reject_used,
}

-- The client that a request names, and that its secret authenticates.
pub record Authentic (env : Env) (id secret : String) (w : World) (client : Client) : Type 0 where
  pub is_found : find? (λ c. str_eq c.client_id id) w.clients ≡ some client
  pub is_active : client.status ≡ "active"
  pub is_verified : verify_password env secret client.client_secret_hash ≡ some true

verified-true : (o : Option Bool) → not (verified o) ≡ false → o ≡ some true
verified-true o h = ground arith

active-true : (c : Client) → not (is_active c) ≡ false → c.status ≡ "active"
active-true c h = ground (arith, eq_iff c.status "active")

pub Quiet-authenticate_client :
    (env : Env) (id secret : String) → Quiet (authenticate_client env id secret)
unfolding authenticate_client Clients.find_by_client_id
Quiet-authenticate_client env id secret = search quiet_rules depth 14

-- The session that a code's row points at, as the query preloads it.
abbrev pub session_of : AuthorizationCode → World → Session
session_of ac w = session_or_zero (keep (λ s. s.id == ac.session_id) w.sessions)

Quiet-preload : (env : Env) (o : Option AuthorizationCode) → Quiet (AuthCodes.preload env o)
unfolding AuthCodes.preload
Quiet-preload env none = search quiet_rules depth 14
Quiet-preload env (some ac) = search quiet_rules depth 14

pub Quiet-find_by_code : (env : Env) (code : String) → Quiet (AuthCodes.find_by_code env code)
unfolding AuthCodes.find_by_code
Quiet-find_by_code env code = search (quiet_rules, Quiet-preload) depth 14

loaded_session :
    (ac ac' : AuthorizationCode) (rows : List Session) (s : Session) (w : World)
    → rows ≡ keep (λ s. s.id == ac.session_id) w.sessions
    → ◌≡◌ {A = AuthorizationCode × Session} (ac, session_or_zero rows) (ac', s)
    → s ≡ session_of ac' w
loaded_session ac ac' rows s w e h =
    sym (ap (λ x. x.1) h) ∙ ap session_or_zero e ∙ ap (λ x. session_of x w) (ap (λ x. x.0) h)

-- The verifier answers the challenge, if there is one.
abbrev pub IsAnswered : Env → Option String → String → Type 0
IsAnswered env none verifier = Unit
IsAnswered env (some challenge) verifier =
    (challenge ≡ "") ⊎ (env.base64_raw_url (env.sha256 verifier) ≡ challenge)

-- The tests that an unused code passes: its time, its client, its redirect URI and its PKCE challenge.
-- The clock is read between the states `w` and `v`.
pub record Passes (env : Env) (w v : World) (client : Client) (input : AuthCodeGrantInput)
    (ac : AuthorizationCode) : Type 0 where
  pub in_time : ReadBetween env w v (λ now. now ≤ ac.expires_at)
  pub same_client : ac.client_id ≡ client.id
  pub same_uri : ac.redirect_uri ≡ input.redirect_uri
  pub pkce : IsAnswered env ac.code_challenge input.code_verifier

pub Passes-within :
    (env : Env) (w v w' v' : World) (client : Client) (input : AuthCodeGrantInput)
    (ac : AuthorizationCode)
    → w'.tick ≤ w.tick
    → v.tick ≤ v'.tick
    → Passes env w v client input ac
    → Passes env w' v' client input ac
Passes-within env w v w' v' client input ac h k p = record {
  in_time = read-within env (λ t. t ≤ ac.expires_at) w v w' v' h k p.in_time;
  same_client = p.same_client;
  same_uri = p.same_uri;
  pkce = p.pkce;
}

module _ (env : Env) where
  in_time : (ac : AuthorizationCode) (now : ℕ) → is_expired now ac ≡ false → now ≤ ac.expires_at
  unfolding is_expired
  in_time ac now h = ground arith

  pkce_holds :
      (o : Option String) (verifier : String)
      → pkce_fails env o verifier ≡ false
      → IsAnswered env o verifier
  unfolding pkce_fails verify_code_challenge
  pkce_holds none verifier h = tt
  pkce_holds (some challenge) verifier h = elim (Bool-cases (str_eq challenge "")) [
    | inl e ↦ inl (ground (arith, eq_iff challenge ""))
    | inr e ↦ inr (ground (arith, eq_iff (env.base64_raw_url (env.sha256 verifier)) challenge))
  ]

Quiet-check_unused :
    (env : Env) (client : Client) (input : AuthCodeGrantInput) (ac : AuthorizationCode)
    → Quiet (check_unused env client input ac)
unfolding check_unused
Quiet-check_unused env client input ac = search quiet_rules depth 14

pub not_used : (o : Option ℕ) → is_some o ≡ false → o ≡ none
not_used o h = ground arith

same_id : (a b : ℕ) → not (a == b) ≡ false → a ≡ b
same_id a b h = ground arith

same_text : (a b : String) → not (str_eq a b) ≡ false → a ≡ b
same_text a b h = ground (arith, eq_iff a b)

module _ (env : Env) (laws : GormLaws env.gorm) where
  pub ensures-authenticate_client :
      (id secret : String) (w : World)
      → Ensures
          (authenticate_client env id secret)
          w
          (λ client v. Authentic env id secret w client × Ticked w v)
  unfolding authenticate_client Clients.find_by_client_id
  ensures-authenticate_client id secret w =
      ensures-bind (ensures-first env clients laws _ w) λ found w1 e1.
        ensures-bind (ensures-or_raise found _ w1) λ c w2 e2.
          ensures-bind (ensures-raise_if _ _ w2) λ u w3 e3.
            ensures-bind (ensures-raise_if _ _ w3) λ u' w4 e4. ensures-pure c w4 _ (
              record {
                is_found = sym e1.0 ∙ e2.0;
                is_active = active-true c e3.0;
                is_verified = verified-true _ e4.0;
              },
              (_, sym (e2.1 ∙ e3.1 ∙ e4.1) ∙ e1.1),
            )

  ensures-preload :
      (found : Option AuthorizationCode) (w : World)
      → Ensures (AuthCodes.preload env found) w (λ o v.
        (ac : AuthorizationCode) (s : Session)
        → o ≡ some (ac, s)
        → (found ≡ some ac) × (s ≡ session_of ac w))
  unfolding AuthCodes.preload
  ensures-preload none w = ensures-pure none w _ (λ ac s e. absurd (cc))
  ensures-preload (some ac) w = ensures-bind (ensures-find env sessions laws _ w) λ rows w1 e1.
      ensures-bind (ensures-find env clients laws _ w1) λ rows' w2 e2.
        ensures-pure _ w2 _ (λ ac' s e. (cc, loaded_session ac ac' rows s w e1.0 (cc)))

  -- The code's row is the one that the table holds under the code, with its session.
  pub ensures-find_by_code :
      (code : String) (w : World)
      → Ensures (AuthCodes.find_by_code env code) w (λ o v.
        Ticked w v
        × ((ac : AuthorizationCode) (s : Session)
            → o ≡ some (ac, s)
            → (find? (λ x. str_eq x.code code) w.auth_codes ≡ some ac) × (s ≡ session_of ac w)))
  unfolding AuthCodes.find_by_code
  ensures-find_by_code code w = ensures-Quiet (Quiet-find_by_code env code) (
      ensures-bind (ensures-first env auth_codes laws _ w) λ found w1 e1. record {
        at = λ o v h ac s e.
            let (same, session) = (ensures-preload found w1).at o v h ac s e in
            (sym e1.0 ∙ same, session ∙ ap (session_of ac) e1.1);
      })

  -- A used code never gets through.
  ensures-reject_used :
      (ac : AuthorizationCode) {Q : Unit → World → Type 0} (w : World)
      → Ensures (reject_used env ac) w Q
  unfolding reject_used
  ensures-reject_used ac w =
      ensures-bind (ensures-ignore _ w)
        λ u w1 e1. ensures-bind (ensures-ignore _ w1) λ u w2 e2. ensures-raise _ w2 _

  module _ (client : Client) (input : AuthCodeGrantInput) (ac : AuthorizationCode) where
    ensures-check_unused :
        (w : World)
        → Ensures (check_unused env client input ac) w (λ _ v. Passes env w v client input ac)
    unfolding check_unused
    ensures-check_unused w = ensures-bind (ensures-time_now env w) λ now w1 e1.
        ensures-bind (ensures-raise_if _ _ w1) λ u w2 e2.
          ensures-bind (ensures-raise_if _ _ w2) λ u w3 e3.
            ensures-bind (ensures-raise_if _ _ w3) λ u w4 e4. record {
              at = λ u v h.
                  let (answered, e5) = (ensures-raise_if _ _ w4).at u v h in
                  record {
                    in_time =
                        read-now env (λ t. t ≤ ac.expires_at) w w1 v now e1
                          (e2.1 ∙ e3.1 ∙ e4.1 ∙ e5) (in_time env ac now e2.0);
                    same_client = same_id _ _ e3.0;
                    same_uri = same_text _ _ e4.0;
                    pkce = pkce_holds env _ _ answered;
                  };
            }

    -- An unused code passes the four tests; a used one never gets through.
    pub ensures-check_auth_code :
        (w : World)
        → Ensures
            (check_auth_code env client input ac)
            w
            (λ _ v. Ticked w v × (ac.used_at ≡ none) × Passes env w v client input ac)
    unfolding check_auth_code is_used
    ensures-check_auth_code w =
        ensures-if _ w (λ used. ensures-reject_used ac w)
          λ unused. record {
            at = λ u v h.
                let (ticked, passes) =
                  (ensures-Quiet (Quiet-check_unused env client input ac)
                      (ensures-check_unused w)).at
                    u v h in
                (ticked, not_used ac.used_at unused, passes);
          }
