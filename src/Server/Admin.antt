-- ===== src/Server/Admin.antt =====
-- The middleware before the management routes: what a request without the session of an
-- administrator comes to.
use oidc_demo.Base.{
  ℕ, ◌≤◌, ◌<◌, String, Option, none, some, ◌≡◌, refl, sym, ap, ◌∙◌, subst, ◌⊎◌, inl, inr, arith,
}
use oidc_demo.Gorm.{GormLaws}
use oidc_demo.World.{World, Env, Exec, Result, ok, err}
use oidc_demo.Model.{AdminSession}
use oidc_demo.Http.{Request, Response, answer, respond}
use oidc_demo.Outcome.{Ensures, bind-run, bind-fails}
use oidc_demo.Answers.{Answers, answers_rules, answers-pure, answers-raise}
use oidc_demo.Management.RedirectUri.{raise_text}
use oidc_demo.Quiet.{Ticked}
use oidc_demo.Oidc.Config.{Config}
use oidc_demo.Management.Errors.{error_json, bad_request, not_found, conflict, server_error}
use oidc_demo.Management.AdminAuth.{admit, require_admin}
use oidc_demo.Management.Admission.{
  IsAdmitted, no_credentials, Quiet-admit, answers-admit, ensures-admit,
}
use oidc_demo.Server.Routes.{ManagementRoute, management, manage, serve}

-- Either the request is refused and no table has changed, or it is an administrator's, and the
-- handler answers it.
abbrev pub IsGuarded : Env → Config → ManagementRoute → Request → World → Response × World → Type 0
IsGuarded env config m r w o =
    ((o.0 ≡ no_credentials) × Ticked w o.1)
    ⊎ ((u : World) × IsAdmitted env r w u × Ticked w u × (o ≡ respond (manage env config m r) u))

-- The refusals have a status of at least 400.
abbrev pub IsRefusal : Response → Type 0
IsRefusal r = 400 ≤ r.status

too_low : (n : ℕ) → 400 ≤ n → ¬ (n < 400)
too_low n h k = omega arith

at_least : (r s : Response) → r ≡ s → s ≡ no_credentials → IsRefusal r
unfolding error_json
at_least r s e f = subst IsRefusal (sym (e ∙ f)) (omega arith)

pub IsRefusal-bad_request : (text : String) → IsRefusal (bad_request text)
unfolding bad_request
IsRefusal-bad_request text = omega arith

pub IsRefusal-not_found : (text : String) → IsRefusal (not_found text)
unfolding not_found
IsRefusal-not_found text = omega arith

pub IsRefusal-conflict : (text : String) → IsRefusal (conflict text)
unfolding conflict
IsRefusal-conflict text = omega arith

pub IsRefusal-server_error : IsRefusal server_error
unfolding server_error
IsRefusal-server_error = omega arith

pub answers-raise_text : (o : Option String) (w : World) → Answers (raise_text o) w IsRefusal
unfolding raise_text
answers-raise_text none w = answers-pure tt w
answers-raise_text (some s) w = answers-raise _ w (IsRefusal-bad_request s)

pub ruleset refusal_rules = (
  answers_rules, IsRefusal-bad_request, IsRefusal-not_found, IsRefusal-conflict,
  IsRefusal-server_error, answers-raise_text,
)

module _ {m : Exec Response Response} {w : World} {Q : Response → World → Type 0} where
  finished_with :
      (a : Result Response Response) (v : World)
      → m w ≡ (a, v)
      → Answers m w IsRefusal
      → Ensures m w Q
      → (answer a).status < 400
      → Q (answer a) v
  finished_with (ok a) v run refuses ensures h = ensures.at a v run
  finished_with (err e) v run refuses ensures h = absurd (too_low _ (refuses.at e v run) h)

  -- A status below 400 is that of the handler's end.
  pub respond_success :
      Answers m w IsRefusal
      → Ensures m w Q
      → (respond m w).0.status < 400
      → Q (respond m w).0 (respond m w).1
  unfolding respond
  respond_success refuses ensures h = finished_with (m w).0 (m w).1 refl refuses ensures h

module _ (env : Env) (config : Config) (laws : GormLaws env.gorm) where
  guarded :
      (m : ManagementRoute) (r : Request) (w : World) (a : Result Response AdminSession) (u : World)
      → admit env r w ≡ (a, u)
      → IsGuarded env config m r w (respond (require_admin env r (manage env config m r)) w)
  unfolding require_admin respond
  guarded m r w (ok s) u run =
      let (n, same) = (Quiet-admit env r).at w in
      inr (
        u,
        (ensures-admit env laws r w).at s u run,
        (n, sym (ap (λ x. x.1) run) ∙ same),
        ap (λ x. (answer x.0, x.1)) (bind-run (admit env r) (λ _. manage env config m r) w s u run),
      )
  guarded m r w (err e) u run =
      let (n, same) = (Quiet-admit env r).at w in
      let ended = bind-fails (admit env r) (λ _. manage env config m r) w e u run in
      inl (
        ap (λ x. answer x.0) ended ∙ (answers-admit env r w).at e u run,
        (n, ap (λ x. x.1) ended ∙ sym (ap (λ x. x.1) run) ∙ same),
      )

  -- Every request to a management route is answered in one of two ways: with the refusal of the
  -- middleware, and then no table has changed; or as the handler of the route answers it, from the tables
  -- as they were, and then the cookie names a session of an administrator that the table holds, that
  -- is not revoked, and whose end the clock, as it was read between the arrival of the request and the
  -- start of the handler, had not reached.
  pub management_needs_admin :
      (m : ManagementRoute) (r : Request) (w : World)
      → IsGuarded env config m r w (serve env config (management m) r w)
  unfolding serve
  management_needs_admin m r w = guarded m r w (admit env r w).0 (admit env r w).1 refl

  -- The same behind the middleware.
  pub management_success :
      (m : ManagementRoute) (r : Request) (w : World) {Q : Response → World → Type 0}
      → ((u : World) → Answers (manage env config m r) u IsRefusal)
      → ((u : World) → Ticked w u → Ensures (manage env config m r) u Q)
      → (serve env config (management m) r w).0.status < 400
      → Q (serve env config (management m) r w).0 (serve env config (management m) r w).1
  management_success m r w {Q} refuses ensures h = elim (management_needs_admin m r w) [
    | inl (refused, quiet) ↦ absurd (too_low _ (at_least _ _ refused refl) h)
    | inr (u, admitted, ticked, same) ↦
        subst (λ (o : Response × World). Q o.0 o.1) (sym same)
          (respond_success (refuses u) (ensures u ticked)
            (subst (λ (o : Response × World). o.0.status < 400) same h))
  ]
