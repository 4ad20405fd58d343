-- ===== src/Oidc/IssuedCode.antt =====
-- The code that the authorization endpoint gives out, and the row that it stands for.
use oidc_demo.Base.{◌≤◌, suc, arith, ◌+◌, none, List, ◌∷◌, ◌≡◌, sym, ap, ◌∙◌, subst, Insert}
use oidc_demo.Gorm.{GormLaws}
use oidc_demo.Model.{Uuid, Tenant, Client, AuthorizationCode}
use oidc_demo.Model.Time.{duration}
use oidc_demo.World.{World, Env, M, ok, auth_codes}
use oidc_demo.Http.{Request, Response}
use oidc_demo.Outcome.{
  Ensures, ensures-bind, ensures-pure, ensures-map_err, ensures-time_now, ensures-create,
}
use oidc_demo.Quiet.{ReadBetween, forward-Quiet, Quiet, quiet_rules}
use oidc_demo.Store.AuthCodes
use oidc_demo.Oidc.Authorize.{issue_code, found_at, param, given}

-- One row is added. It is bound to the session, the client and the parameters of the request, and
-- its text is the code in the response.
pub record Issues (env : Env) (tenant : Tenant) (client : Client) (session_id : Uuid) (r : Request)
    (w : World) (response : Response) (v : World) : Type 0 where
  pub row : AuthorizationCode
  pub is_added : Insert row w.auth_codes v.auth_codes
  pub of_session : row.session_id ≡ session_id
  pub of_client : row.client_id ≡ client.id
  pub same_uri : row.redirect_uri ≡ r.query_param "redirect_uri"
  pub same_scope : row.scope ≡ r.query_param "scope"
  pub same_challenge : row.code_challenge ≡ given (r.query_param "code_challenge")
  pub is_unused : row.used_at ≡ none
  pub lifetime :
      ReadBetween env w v (λ now. row.expires_at ≡ now + duration tenant.auth_code_lifetime)
  pub is_answered :
      response
      ≡ found_at env
          (r.query_param "redirect_uri")
          (("code", row.code) ∷ param "state" (r.query_param "state"))

module _ (env : Env) (laws : GormLaws env.gorm) where
  ensures-kept :
      {A : Type 0} {m : M A}
      → Quiet m
      → (w : World) → Ensures m w (λ _ v. (w.tick ≤ v.tick) × (w.auth_codes ≡ v.auth_codes))
  ensures-kept {m = m} q w = record {
    at = λ a v e.
        let (n, same) = q.at w in
        (forward-Quiet q e, sym (ap (λ (x : World). x.auth_codes) (sym (ap (λ x. x.1) e) ∙ same)));
  }

  added :
      (row : AuthorizationCode) (t s rows : List AuthorizationCode) (v : World)
      → t ≡ s
      → Insert row s rows
      → rows ≡ v.auth_codes
      → Insert row t v.auth_codes
  added row t s rows v e i k =
      subst (λ x. Insert row x v.auth_codes) (sym e) (subst (λ x. Insert row s x) k i)

  ensures-issue_code :
      (tenant : Tenant) (client : Client) (session_id : Uuid) (r : Request) (w : World)
      → Ensures
          (issue_code env tenant client session_id r)
          w
          (Issues env tenant client session_id r w)
  unfolding issue_code AuthCodes.create_code
  ensures-issue_code tenant client session_id r w =
      ensures-bind (ensures-map_err _ (ensures-kept (search quiet_rules) w)) λ bytes w1 (up, e1).
        ensures-bind (ensures-map_err _ (ensures-time_now env w1)) λ now w2 e2.
          ensures-bind (ensures-map_err _ (ensures-create env auth_codes laws _ _ w2)) λ row w3 e3.
            let (rows, i, (id, at, made), e) = e3 in
            let first : w2.tick ≡ suc w1.tick = ap (λ (x : World). x.tick) e2.1 in
            let then : w3.tick ≡ suc w2.tick = ap (λ (x : World). x.tick) e in
            let codes : World → List AuthorizationCode = λ x. x.auth_codes in
            ensures-pure _ w3 _ (record {
              row = row;
              is_added = added row _ _ rows w3 (e1 ∙ ap codes (sym e2.1)) i (ap codes (sym e));
              of_session = ap (λ (c : AuthorizationCode). c.session_id) made;
              of_client = ap (λ (c : AuthorizationCode). c.client_id) made;
              same_uri = ap (λ (c : AuthorizationCode). c.redirect_uri) made;
              same_scope = ap (λ (c : AuthorizationCode). c.scope) made;
              same_challenge = ap (λ (c : AuthorizationCode). c.code_challenge) made;
              is_unused = ap (λ (c : AuthorizationCode). c.used_at) made;
              lifetime = (
                w1.tick,
                up,
                omega arith,
                ap (λ (c : AuthorizationCode). c.expires_at) made
                    ∙ ap (λ t. t + duration tenant.auth_code_lifetime) e2.0,
              );
              is_answered =
                  ap
                    (λ (c : AuthorizationCode).
                      found_at env (r.query_param "redirect_uri")
                        (("code", c.code) ∷ param "state" (r.query_param "state")))
                    (sym made);
            })

  -- A code that is issued is a new row of the table: if the issue comes to its end, exactly one row is
  -- added, unused, bound to the session and the client and to the redirect URI, scope and PKCE challenge
  -- of the request, and it expires the tenant's lifetime after the time that the clock had during the issue; the response
  -- redirects to that URI with the text of this row and the state of the request, or is a server
  -- error where the URI cannot be parsed.
  pub issued_code_is_bound :
      (tenant : Tenant) (client : Client) (session_id : Uuid) (r : Request) (w : World)
      (response : Response) (v : World)
      → issue_code env tenant client session_id r w ≡ (ok response, v)
      → Issues env tenant client session_id r w response v
  issued_code_is_bound tenant client session_id r w =
      (ensures-issue_code tenant client session_id r w).at
