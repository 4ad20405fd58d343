-- ===== src/Server/Logout.antt =====
-- POST /management/v1/auth/logout, and what a session is worth after it.
use oidc_demo.Base.{
  true, false, String, Option, none, some, ◌≡◌, refl, sym, ap, ◌∙◌, subst, ◌==◌, find?, find-holds,
  has_mark, is_some, inl, inr,
}
use oidc_demo.Gorm.{GormLaws, UpdatesSucceed}
use oidc_demo.Model.{Uuid, AdminSession}
use oidc_demo.World.{World, Env, ok, admin_sessions, pure}
use oidc_demo.Http.{Request, answer, respond}
use oidc_demo.Outcome.{bind-run, Ensures, ensures-bind, ensures-time_now, ensures-updates}
use oidc_demo.Reliable.{ignored, stamped_runs}
use oidc_demo.Progress.{admin_revoked, marked-change_hit}
use oidc_demo.Quiet.{Ticked}
use oidc_demo.Oidc.Config.{Config}
use oidc_demo.Store.AdminSessions
use oidc_demo.Management.AdminService
use oidc_demo.Management.AdminAuth.{admin_cookie_name, revoke_cookie, revoke_parsed, handle_logout}
use oidc_demo.Management.Admission.{IsAdmitted, no_credentials}
use oidc_demo.Server.Admin.{management_needs_admin}
use oidc_demo.Server.Routes.{Route, ManagementRoute, management, serve, Reach}
use oidc_demo.Server.Reach.{admin_is_logged_out, holds, marks_stay}

same : {A : Type 0} {o : Option A} {a b : A} → o ≡ some a → o ≡ some b → a ≡ b
same h k = cc

-- A session that is found and revoked is not current.
not_current :
    (id : Uuid) (w : World) (s : AdminSession)
    → find? (λ s. s.id == id) w.admin_sessions ≡ some s
    → s.revoked_at ≡ none
    → ¬ (admin_revoked id w ≡ true)
not_current id w s found live h = apart (
    sym (ap is_some live)
    ∙ sym (ap (λ o. has_mark (λ (x : AdminSession). is_some x.revoked_at) o) found)
    ∙ h)
  where
    apart : ¬ (false ≡ true)
    apart e = cc

module _ (env : Env) (reliable : UpdatesSucceed env.gorm) (laws : GormLaws env.gorm) where
  ensures-revoke :
      (id : Uuid) (s : AdminSession) (w : World)
      → find? (λ s. s.id == id) w.admin_sessions ≡ some s
      → Ensures (AdminSessions.revoke env id) w (λ _ v. admin_revoked id v ≡ true)
  unfolding AdminSessions.revoke
  ensures-revoke id s w found = ensures-bind (ensures-time_now env w) λ now w1 e1. record {
    at = λ k v run.
        let (at, e2) = (ensures-updates env admin_sessions laws _ _ w1).at k v run in
        subst (λ x. admin_revoked id x ≡ true) (sym e2)
          (marked-change_hit (λ s. s.id == id) (λ s. is_some s.revoked_at) (λ s. s.id == id)
            (AdminSessions.revoked now at) w1.admin_sessions s (λ r. refl)
            (ap (λ (x : World). find? (λ s. s.id == id) x.admin_sessions) e1.1 ∙ found)
            (find-holds (λ s. s.id == id) w.admin_sessions s found) refl);
  }

  cookie_ends :
      (o : Option String) (cookie : String) (id : Uuid) (s : AdminSession) (w : World)
      → o ≡ some cookie
      → env.uuid_parse cookie ≡ some id
      → find? (λ s. s.id == id) w.admin_sessions ≡ some s
      → (v : World) × (revoke_cookie env o w ≡ (ok tt, v)) × (admin_revoked id v ≡ true)
  unfolding revoke_cookie revoke_parsed AdminService.revoke_session AdminSessions.revoke
  cookie_ends o cookie id s w has parsed found =
      let (k, v, run) = stamped_runs env reliable admin_sessions _ AdminSessions.revoked w in
      (v, rw (has, parsed) (ignored _ w run), (ensures-revoke id s w found).at k v run)

  -- If the cookie names a session of an administrator that the table holds, and no update fails, that
  -- session is revoked after the logout, which is answered with status 204.
  pub logout_ends_session :
      (config : Config) (r : Request) (cookie : String) (id : Uuid) (s : AdminSession) (w : World)
      → r.cookie admin_cookie_name ≡ some cookie
      → env.uuid_parse cookie ≡ some id
      → find? (λ s. s.id == id) w.admin_sessions ≡ some s
      → ((serve env config Route.admin_logout r w).0.status ≡ 204)
        × (holds (admin_is_logged_out id) (serve env config Route.admin_logout r w).1 ≡ true)
  unfolding serve respond handle_logout pure holds
  logout_ends_session config r cookie id s w has parsed found =
      let (v, run, ended) =
        cookie_ends (r.cookie admin_cookie_name) cookie id s w has parsed found in
      let whole = bind-run (revoke_cookie env (r.cookie admin_cookie_name)) _ w tt v run in
      (ap (λ x. (answer x.0).status) whole, ap (λ x. admin_revoked id x.1) whole ∙ ended)

module _ (env : Env) (config : Config) (laws : GormLaws env.gorm) where
  refused_after :
      (r : Request) (cookie : String) (id : Uuid) (w : World)
      → r.cookie admin_cookie_name ≡ some cookie
      → env.uuid_parse cookie ≡ some id
      → admin_revoked id w ≡ true
      → (u : World) → ¬ IsAdmitted env r w u
  refused_after r cookie id w has parsed revoked u h =
      not_current id w h.session
        (subst (λ x. find? (λ s. s.id == x) w.admin_sessions ≡ some h.session)
          (same h.is_parsed (ap env.uuid_parse (same h.has_cookie has) ∙ parsed))
          h.is_current.is_found)
        h.is_current.not_revoked revoked

  -- If an administrator's session is revoked, then in every state that the server comes to after, a
  -- request to a management route whose cookie names that session is refused, and changes no table.
  pub logged_out_stays_out :
      (m : ManagementRoute) (r : Request) (cookie : String) (id : Uuid) (w v : World)
      → r.cookie admin_cookie_name ≡ some cookie
      → env.uuid_parse cookie ≡ some id
      → holds (admin_is_logged_out id) w ≡ true
      → Reach env config w v
      → ((serve env config (management m) r v).0 ≡ no_credentials)
        × Ticked v (serve env config (management m) r v).1
  unfolding holds
  logged_out_stays_out m r cookie id w v has parsed revoked reach =
      elim (management_needs_admin env config laws m r v) [
        | inl refused ↦ refused
        | inr (u, admitted, ticked, rest) ↦ absurd (
            refused_after r cookie id v has parsed
              (marks_stay env config laws (admin_is_logged_out id) w v reach revoked) u admitted)
      ]
