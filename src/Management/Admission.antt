-- ===== src/Management/Admission.antt =====
-- What the middleware asks of a request.
use oidc_demo.Base.{
  ◌≤◌, ℕ, String, false, none, some, ◌≡◌, refl, sym, ◌∙◌, subst, find?, not, ◌==◌, ◌<◌, arith,
}
use oidc_demo.Gorm.{GormLaws}
use oidc_demo.Model.{Uuid, AdminSession, admin_session_is_valid}
use oidc_demo.World.{advance, World, Env, admin_sessions}
use oidc_demo.Http.{Request, Response}
use oidc_demo.Outcome.{
  Ensures, ensures-bind, ensures-pure, ensures-raise_if, ensures-or_raise, ensures-time_now,
  ensures-first, ensures-map_err,
}
use oidc_demo.Answers.{Answers, answers_rules}
use oidc_demo.Quiet.{ReadBetween, read-now, read-within, Quiet, quiet_rules}
use oidc_demo.Store.AdminSessions
use oidc_demo.Management.AdminService.{validate_session}
use oidc_demo.Management.AdminAuth.{admit, admin_cookie_name, unauthorized}

-- The session of an administrator that the table holds, neither revoked nor over.
-- The clock is read between the states `w` and `v`.
pub record IsCurrent (env : Env) (id : Uuid) (w v : World) (s : AdminSession) : Type 0 where
  pub is_found : find? (λ s. s.id == id) w.admin_sessions ≡ some s
  pub not_revoked : s.revoked_at ≡ none
  pub in_time : ReadBetween env w v (λ now. now < s.expires_at)

-- The cookie of the request names such a session.
pub record IsAdmitted (env : Env) (r : Request) (w v : World) : Type 0 where
  pub cookie : String
  pub id : Uuid
  pub session : AdminSession
  pub has_cookie : r.cookie admin_cookie_name ≡ some cookie
  pub is_parsed : env.uuid_parse cookie ≡ some id
  pub is_current : IsCurrent env id w v session

abbrev pub no_credentials : Response
no_credentials = unauthorized "invalid or missing credentials"

valid-parts :
    (now : ℕ) (s : AdminSession)
    → not (admin_session_is_valid now s) ≡ false
    → (s.revoked_at ≡ none) × (now < s.expires_at)
unfolding admin_session_is_valid
valid-parts now s h = (ground arith, ground arith)

module _ (env : Env) where
  counted : (w w1 w2 : World) → w1 ≡ advance env w → w1 ≡ w2 → w.tick ≤ w2.tick
  counted w w1 w2 e k = subst (λ (x : World). w.tick ≤ x.tick) (sym e ∙ k) (omega arith)

  Quiet-validate_session : (id : Uuid) → Quiet (validate_session env id)
  unfolding validate_session AdminSessions.find_by_id
  Quiet-validate_session id = search quiet_rules depth 14

  pub Quiet-admit : (r : Request) → Quiet (admit env r)
  unfolding admit
  Quiet-admit r = search (quiet_rules, Quiet-validate_session) depth 14

  pub answers-admit : (r : Request) (w : World) → Answers (admit env r) w (λ e. e ≡ no_credentials)
  unfolding admit
  answers-admit r w = search (answers_rules, refl {a = no_credentials}) depth 14

  module _ (laws : GormLaws env.gorm) where
    ensures-validate_session :
        (id : Uuid) (w : World)
        → Ensures (validate_session env id) w (λ s v. IsCurrent env id w v s)
    unfolding validate_session AdminSessions.find_by_id
    ensures-validate_session id w =
        ensures-bind (ensures-first env admin_sessions laws _ w) λ found w1 e1.
          ensures-bind (ensures-or_raise found _ w1) λ s w2 e2.
            ensures-bind (ensures-time_now env w2) λ now w3 e3.
              ensures-bind (ensures-raise_if _ _ w3) λ u w4 e4. ensures-pure s w4 _ (
                let (live, before) = valid-parts now s e4.0 in
                record {
                  is_found = sym e1.0 ∙ e2.0;
                  not_revoked = live;
                  in_time =
                      read-within env (λ t. t < s.expires_at) w2 w4 w w4 (counted w w1 w2 e1.1 e2.1)
                        (omega arith)
                        (read-now env (λ t. t < s.expires_at) w2 w3 w4 now e3 e4.1 before);
                })

    pub ensures-admit :
        (r : Request) (w : World) → Ensures (admit env r) w (λ s v. IsAdmitted env r w v)
    unfolding admit
    ensures-admit r w = ensures-bind (ensures-or_raise _ _ w) λ cookie w1 e1.
        ensures-bind (ensures-or_raise _ _ w1) λ id w2 e2.
          let h = ensures-map_err _ (ensures-validate_session id w2) in
          record {
            at = λ s v run. record {
              cookie = cookie;
              id = id;
              session = s;
              has_cookie = e1.0;
              is_parsed = e2.0;
              is_current = subst (λ x. IsCurrent env id x v s) (sym (e1.1 ∙ e2.1)) (h.at s v run);
            };
          }
