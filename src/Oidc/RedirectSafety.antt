-- ===== src/Oidc/RedirectSafety.antt =====
-- Every redirect of the authorization endpoint goes to the login page or to a registered address.
use Prim.Native.String.{◌++◌ as join}
use oidc_demo.Base.{
  String, true, false, Option, none, some, List, find?, ◌≡◌, refl, sym, ◌∙◌, subst, ◌⊎◌, inl, inr,
  str_eq, if◌then◌else◌,
}
use oidc_demo.Gorm.{GormLaws}
use oidc_demo.Model.{Tenant, Client, Uuid}
use oidc_demo.World.{World, Env, tenants, advance}
use oidc_demo.Http.{Request, Response, Body, redirect, json, server_error}
use oidc_demo.Outcome.{ensures-or_raise, ensures-map_err, ensures-first, ensures-pure}
use oidc_demo.Answers.{
  Answers, Always, always-bind, answers_rules, answers-map_err, answers-or_raise, answers-pure,
}
use oidc_demo.Store.Tenants
use oidc_demo.Oidc.Config.{Config}
use oidc_demo.Oidc.Authorize.{
  error_response_direct, error_redirect, redirect_to_login, check_client, check_request, session_at,
  current_session, require_session, issue_code, authorize, found_at,
}
use oidc_demo.Oidc.Redirects.{Registered, Checked, ensures-check_client}

-- `P` holds of the address that the response redirects to, if it redirects.
abbrev pub Goes : (String → Type 0) → Body → Type 0
Goes P (redirect uri params) = P uri
Goes P body = Unit

abbrev Leads : (String → Type 0) → Response → Type 0
Leads P r = Goes P r.body

abbrev pub IsSafe : Config → Request → World → String → Type 0
IsSafe config r w uri = (uri ≡ join config.login_page_url "/login") ⊎ Registered r w uri

module _ (P : String → Type 0) where
  Leads-direct : (code text : String) → Leads P (error_response_direct code text)
  unfolding error_response_direct
  Leads-direct code text = tt

  Leads-server_error : Leads P server_error
  Leads-server_error = tt

  module _ (env : Env) where
    Leads-found_at :
        (uri : String) (params : List (String × String)) → P uri → Leads P (found_at env uri params)
    Leads-found_at uri params h =
        elim (env.url_parses uri)
          as (λ b. Leads P (if b then json 302 (redirect uri params) else server_error)) [
            | true ↦ h
            | false ↦ tt
          ]

    Leads-error_redirect :
        (uri state code text : String) → P uri → Leads P (error_redirect env uri state code text)
    unfolding error_redirect
    Leads-error_redirect uri state code text h = Leads-found_at uri _ h

    Leads-login :
        (config : Config) (r : Request)
        → P (join config.login_page_url "/login")
        → Leads P (redirect_to_login env config r)
    unfolding redirect_to_login
    Leads-login config r h = Leads-found_at _ _ h

    answers-check_client :
        (tenant : Tenant) (r : Request) (w : World)
        → Answers (check_client env tenant r) w (Leads P)
    unfolding check_client
    answers-check_client tenant r w = search (answers_rules, Leads-direct) depth 30

    answers-check_request :
        (client : Client) (r : Request) (w : World)
        → P (r.query_param "redirect_uri")
        → Answers (check_request env client r) w (Leads P)
    unfolding check_request
    answers-check_request client r w h = search (answers_rules, Leads-error_redirect, h) depth 14

    answers-session_at :
        (tenant : Tenant) (o : Option Uuid) (w : World)
        → Answers (session_at env tenant o) w (Leads P)
    unfolding session_at
    answers-session_at tenant none w = search answers_rules depth 14
    answers-session_at tenant (some id) w = search answers_rules depth 14

    answers-current_session :
        (tenant : Tenant) (r : Request) (w : World)
        → Answers (current_session env tenant r) w (Leads P)
    unfolding current_session
    answers-current_session tenant r w = answers-session_at tenant _ w

    answers-require_session :
        (config : Config) (session : Option Uuid) (r : Request) (w : World)
        → P (r.query_param "redirect_uri")
        → P (join config.login_page_url "/login")
        → Answers (require_session env config session r) w (Leads P)
    unfolding require_session
    answers-require_session config session r w h l =
        search (answers_rules, Leads-error_redirect, Leads-login, h, l) depth 14

    always-issue_code :
        (tenant : Tenant) (client : Client) (id : Uuid) (r : Request) (w : World)
        → P (r.query_param "redirect_uri")
        → Always (issue_code env tenant client id r) w (Leads P)
    unfolding issue_code
    always-issue_code tenant client id r w h =
        always-bind (answers-map_err _ _ w (λ e. Leads-server_error)) λ bytes w1 e1.
          always-bind (answers-map_err _ _ w1 (λ e. Leads-server_error)) λ now w2 e2.
            always-bind (answers-map_err _ _ w2 (λ e. Leads-server_error)) λ row w3 e3. record {
              early = answers-pure _ w3;
              late = ensures-pure _ w3 _ (Leads-found_at _ _ h);
            }

module _ (env : Env) (config : Config) (laws : GormLaws env.gorm) where
  -- What the first lookups found, in the state before them.
  registered :
      (r : Request) (w w1 : World) (found : Option Tenant) (tenant : Tenant) (client : Client)
      → found ≡ find? (λ t. str_eq t.code r.tenant_code) w.tenants
      → w1 ≡ advance env w
      → found ≡ some tenant
      → Checked env laws tenant r w1 client
      → Registered r w (r.query_param "redirect_uri")
  registered r w w1 found tenant client e later is_tenant checked =
      let here = subst (λ x. Checked env laws tenant r x client) later checked in
      record {
        tenant = tenant;
        client = client;
        is_tenant = sym e ∙ is_tenant;
        is_client = here.0;
        is_active = here.1;
        of_tenant = here.2;
        is_requested = refl;
        is_registered = here.3;
      }

  pub always-authorize :
      (r : Request) (w : World) → Always (authorize env config r) w (Leads (IsSafe config r w))
  unfolding authorize Tenants.find_by_code
  always-authorize r w = always-bind (answers-map_err _ _ w (λ e. tt)) λ found w1 run1.
      always-bind (answers-or_raise found _ w1 tt) λ tenant w2 run2.
        always-bind (answers-check_client _ env tenant r w2) λ client w3 run3.
          let q1 = (ensures-map_err _ (ensures-first env tenants laws _ w)).at found w1 run1 in
          let q2 = (ensures-or_raise found _ w1).at tenant w2 run2 in
          let q3 = (ensures-check_client env laws tenant r w2).at client w3 run3 in
          let ok_uri = inr (registered r w w2 found tenant client q1.0 (sym q2.1 ∙ q1.1) q2.0 q3) in
          always-bind (answers-check_request _ env client r w3 ok_uri) λ u w4 run4.
            always-bind (answers-current_session _ env tenant r w4) λ session w5 run5.
              always-bind (answers-require_session _ env config session r w5 ok_uri (inl refl))
                λ id w6 run6. always-issue_code _ env tenant client id r w6 ok_uri
