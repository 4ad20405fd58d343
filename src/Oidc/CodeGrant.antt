-- ===== src/Oidc/CodeGrant.antt =====
-- The authorization code grant as a whole: what a success found, and that a code is used once.
use oidc_demo.Base.{
  ◌≤◌, String, true, Option, none, some, ◌≡◌, ◌≢◌, refl, sym, ap, ◌∙◌, subst, find?, has_mark,
  is_some, str_eq, ◌==◌, ==_refl, arith,
}
use oidc_demo.Gorm.{GormLaws}
use oidc_demo.Env.{Env}
use oidc_demo.Model.{Client, Session, AuthorizationCode}
use oidc_demo.World.{World, ok, auth_codes}
use oidc_demo.Http.{TokenResponse}
use oidc_demo.Outcome.{Ensures, ensures-bind, ensures-or_raise, ensures-time_now, ensures-updates}
use oidc_demo.Quiet.{ensures-forward, Ticked, Ticked-trans}
use oidc_demo.Progress.{code_used, marked-change_hit, ensures-Grows}
use oidc_demo.Store.AuthCodes
use oidc_demo.Oidc.Config.{Config}
use oidc_demo.Oidc.AuthCode.{AuthCodeGrantInput, redeem, handle_auth_code_grant_logic}
use oidc_demo.Oidc.Checks.{
  Quiet-authenticate_client, Quiet-find_by_code, Passes-within, Authentic, Passes, session_of,
  ensures-authenticate_client, ensures-find_by_code, ensures-check_auth_code,
}
use oidc_demo.Oidc.Progress.{Grows-issue_tokens}

-- A successful grant: what it found when it began, and the state `before` in which it began to
-- write, where no table differs from those of the start.
pub record Redeems (env : Env) (config : Config) (input : AuthCodeGrantInput) (w : World)
    (response : TokenResponse) (v : World) : Type 0 where
  pub client : Client
  pub ac : AuthorizationCode
  pub before : World
  pub is_client : Authentic env input.client_id input.client_secret w client
  pub is_found : find? (λ x. str_eq x.code input.code) w.auth_codes ≡ some ac
  pub is_unused : ac.used_at ≡ none
  pub passes : Passes env w before client input ac
  pub reads : Ticked w before
  pub writes : redeem env config client ac (session_of ac w) before ≡ (ok response, v)

-- What was read in a state that has only counted calls was there at the start.
start_of :
    (w w1 : World) (code : String)
    → Ticked w w1
    → (loaded : AuthorizationCode × Session)
    → (find? (λ x. str_eq x.code code) w1.auth_codes ≡ some loaded.0)
      × (loaded.1 ≡ session_of loaded.0 w1)
    → (find? (λ x. str_eq x.code code) w.auth_codes ≡ some loaded.0)
      × (loaded.1 ≡ session_of loaded.0 w)
start_of w w1 code (n, e) loaded h =
    subst
      (λ x.
        (find? (λ x. str_eq x.code code) x.auth_codes ≡ some loaded.0)
        × (loaded.1 ≡ session_of loaded.0 x))
      e h

counted : (w w1 w2 w3 : World) → w.tick ≤ w1.tick → w1.tick ≤ w2.tick → w2 ≡ w3 → w.tick ≤ w3.tick
counted w w1 w2 w3 h k e = subst (λ (x : World). w.tick ≤ x.tick) e (omega arith)

unused_mark :
    {o : Option AuthorizationCode} {ac : AuthorizationCode}
    → o ≡ some ac
    → ac.used_at ≡ none
    → has_mark (λ x. is_some x.used_at) o ≡ true
    → ⊥
unused_mark h unused used = ground arith

module _ (env : Env) (laws : GormLaws env.gorm) where
  ensures-mark_as_used :
      (code : String) (ac : AuthorizationCode) (w : World)
      → find? (λ x. str_eq x.code code) w.auth_codes ≡ some ac
      → Ensures (AuthCodes.mark_as_used env ac.id) w (λ _ v. code_used code v ≡ true)
  unfolding AuthCodes.mark_as_used
  ensures-mark_as_used code ac w h = ensures-bind (ensures-time_now env w) λ now w1 e1. record {
    at = λ k v run.
        let (at, e2) = (ensures-updates env auth_codes laws _ _ w1).at k v run in
        subst (λ x. code_used code x ≡ true) (sym e2)
          (marked-change_hit (λ x. str_eq x.code code) (λ x. is_some x.used_at) (λ x. x.id == ac.id)
            (λ x. record x { used_at = some now }) w1.auth_codes ac (λ r. refl)
            (ap (λ x. find? (λ r. str_eq r.code code) x.auth_codes) e1.1 ∙ h) (==_refl ac.id) refl);
  }

  module _ (config : Config) where
    ensures-redeem :
        (code : String) (client : Client) (ac : AuthorizationCode) (session : Session) (w : World)
        → find? (λ x. str_eq x.code code) w.auth_codes ≡ some ac
        → Ensures (redeem env config client ac session) w (λ _ v. code_used code v ≡ true)
    unfolding redeem
    ensures-redeem code client ac session w h =
        ensures-bind (ensures-mark_as_used code ac w h) λ k w1 used.
          ensures-Grows (Grows-issue_tokens env laws config client ac session) w1
            λ r v later. later.codes code used

    pub ensures-handle_auth_code_grant_logic :
        (input : AuthCodeGrantInput) (w : World)
        → Ensures (handle_auth_code_grant_logic env config input) w (Redeems env config input w)
    unfolding handle_auth_code_grant_logic
    ensures-handle_auth_code_grant_logic input w =
        ensures-bind
          (ensures-forward (Quiet-authenticate_client env input.client_id input.client_secret)
            (ensures-authenticate_client env laws input.client_id input.client_secret w))
          λ client w1 (up1, q1).
            ensures-bind
              (ensures-forward (Quiet-find_by_code env input.code)
                (ensures-find_by_code env laws input.code w1))
              λ found w2 (up2, q2). ensures-bind (ensures-or_raise found _ w2) λ loaded w3 q3.
                ensures-bind (ensures-check_auth_code env laws client input loaded.0 w3) λ u w4 q4.
                  record {
                    at = λ r v run.
                        let start =
                          start_of w w1 input.code q1.1 loaded (q2.1 loaded.0 loaded.1 q3.0) in
                        record {
                          client = client;
                          ac = loaded.0;
                          before = w4;
                          is_client = q1.0;
                          is_found = start.0;
                          is_unused = q4.1;
                          passes =
                              Passes-within env w3 w4 w w4 client input loaded.0
                                (counted w w1 w2 w3 up1 up2 q3.1) (omega arith) q4.2;
                          reads =
                              Ticked-trans w q1.1
                                (Ticked-trans w1 q2.0 (subst (λ x. Ticked x w4) (sym q3.1) q4.0));
                          writes =
                              subst (λ s. redeem env config client loaded.0 s w4 ≡ (ok r, v))
                                start.1 run;
                        };
                  }

    -- A code that has been redeemed is used from then on.
    pub ensures-code_used :
        (input : AuthCodeGrantInput) (w : World)
        → Ensures
            (handle_auth_code_grant_logic env config input)
            w
            (λ _ v. code_used input.code v ≡ true)
    ensures-code_used input w = record {
      at = λ r v run.
          let done = (ensures-handle_auth_code_grant_logic input w).at r v run in
          let (n, e) = done.reads in
          (ensures-redeem input.code done.client done.ac (session_of done.ac w) done.before
              (ap (λ x. find? (λ r. str_eq r.code input.code) x.auth_codes) e ∙ done.is_found)).at
            r v done.writes;
    }

    -- A used code is never redeemed.
    pub used_code_fails :
        (input : AuthCodeGrantInput) (w : World) (r : TokenResponse) (v : World)
        → code_used input.code w ≡ true
        → handle_auth_code_grant_logic env config input w ≢ (ok r, v)
    used_code_fails input w r v used run =
        let done = (ensures-handle_auth_code_grant_logic input w).at r v run in
        unused_mark done.is_found done.is_unused used

    -- A successful authorization code grant found the active client that the request names and
    -- whose secret it gives, and an unused code under the text of the request; the clock, as it
    -- was read after the request came and before anything was written, had not passed the end of
    -- the code; the code had been issued to that client and for that redirect URI, and its PKCE
    -- challenge, if it has one, is answered by the verifier. The response and the new state are
    -- those of `redeem` from a state with the tables of the start.
    pub code_grant_is_sound :
        (input : AuthCodeGrantInput) (w : World) (response : TokenResponse) (v : World)
        → handle_auth_code_grant_logic env config input w ≡ (ok response, v)
        → Redeems env config input w response v
    code_grant_is_sound input w = (ensures-handle_auth_code_grant_logic input w).at
