-- ===== src/Server/Incident.antt =====
-- The incident endpoints, from the request to the tables.
use oidc_demo.Base.{ℕ, ◌<◌, Bool, Option, some, ◌≡◌, refl, sym, ap, ◌∙◌, subst, ◌==◌, arith}
use oidc_demo.Gorm.{GormLaws}
use oidc_demo.Model.{Uuid, Session}
use oidc_demo.World.{World, Env, M}
use oidc_demo.Http.{Request, Fields, text_field}
use oidc_demo.Outcome.{Ensures, ensures-bind, ensures-or_raise}
use oidc_demo.Answers.{Answers}
use oidc_demo.Oidc.Config.{Config}
use oidc_demo.Store.Sessions
use oidc_demo.Store.AccessTokens
use oidc_demo.Store.RefreshTokens
use oidc_demo.Management.Incident.{revoke_each, revoke_tenant, revoke_user}
use oidc_demo.Management.Ended.{Ended, ensures-each}
use oidc_demo.Quiet.{Ticked}
use oidc_demo.Server.Admin.{IsRefusal, refusal_rules, management_success}
use oidc_demo.Server.Routes.{ManagementRoute, management, manage, serve}

refuses-each : (s a r : M ℕ) (w : World) → Answers (revoke_each s a r) w IsRefusal
unfolding revoke_each
refuses-each s a r w = search (refusal_rules) depth 14

same : {A : Type 0} {o : Option A} {a b : A} → o ≡ some a → o ≡ some b → a ≡ b
same h k = cc

answered : (n : ℕ) → n ≡ 200 → n < 400
answered n h = omega arith

-- What has counted a call only is no other start.
Ended-after : (p : Session → Bool) (w u v : World) → Ticked w u → Ended p u v → Ended p w v
Ended-after p w u v (n, same) h = record {
  session_time = h.session_time;
  access_time = h.access_time;
  refresh_time = h.refresh_time;
  tick = h.tick;
  state = (subst (λ x. Ended p x v) same h).state;
}

module _ (env : Env) (config : Config) (laws : GormLaws env.gorm) where
  refuses-tenant : (r : Request) (w : World) → Answers (revoke_tenant env r) w IsRefusal
  unfolding revoke_tenant
  refuses-tenant r w = search (refusal_rules, refuses-each) depth 14

  refuses-user : (r : Request) (w : World) → Answers (revoke_user env r) w IsRefusal
  unfolding revoke_user
  refuses-user r w = search (refusal_rules, refuses-each) depth 14

  ends_tenant :
      (r : Request) (fields : Fields) (id : Uuid) (w : World)
      → r.bind ≡ some fields
      → env.uuid_parse (text_field fields "tenant_id") ≡ some id
      → Ensures (revoke_tenant env r) w (λ _ v. Ended (λ s. s.tenant_id == id) w v)
  unfolding revoke_tenant Sessions.revoke_by_tenant_id AccessTokens.revoke_by_tenant_id
      RefreshTokens.revoke_by_tenant_id
  ends_tenant r fields id w bound parsed = ensures-bind (ensures-or_raise _ _ w) λ fields' w1 e1.
      ensures-bind (ensures-or_raise _ _ w1) λ id' w2 e2.
        let is_id : id' ≡ id =
          same e2.0
            (ap (λ f. env.uuid_parse (text_field f "tenant_id")) (same e1.0 bound) ∙ parsed) in
        record {
          at = λ a v run.
              subst (λ x. Ended (λ s. s.tenant_id == x) w v) is_id
                (subst (λ u. Ended (λ s. s.tenant_id == id') u v) (sym (e1.1 ∙ e2.1))
                  ((ensures-each env laws (λ s. s.tenant_id == id') w2 (λ now at s. refl)).at a v
                    run));
        }

  ends_user :
      (r : Request) (fields : Fields) (id : Uuid) (w : World)
      → r.bind ≡ some fields
      → env.uuid_parse (text_field fields "user_id") ≡ some id
      → Ensures (revoke_user env r) w (λ _ v. Ended (λ s. s.user_id == id) w v)
  unfolding revoke_user Sessions.revoke_by_user_id AccessTokens.revoke_by_user_id
      RefreshTokens.revoke_by_user_id
  ends_user r fields id w bound parsed = ensures-bind (ensures-or_raise _ _ w) λ fields' w1 e1.
      ensures-bind (ensures-or_raise _ _ w1) λ id' w2 e2.
        let is_id : id' ≡ id =
          same e2.0
            (ap (λ f. env.uuid_parse (text_field f "user_id")) (same e1.0 bound) ∙ parsed) in
        record {
          at = λ a v run.
              subst (λ x. Ended (λ s. s.user_id == x) w v) is_id
                (subst (λ u. Ended (λ s. s.user_id == id') u v) (sym (e1.1 ∙ e2.1))
                  ((ensures-each env laws (λ s. s.user_id == id') w2 (λ now at s. refl)).at a v
                    run));
        }

  -- If the request to revoke the tokens of a tenant names an id and is answered with status 200, then
  -- exactly the live sessions of that tenant are revoked, and exactly the live access and refresh tokens
  -- of its sessions, whether these were live or not; nothing else in the database has changed.
  pub revoke_tenant_is_exact :
      (r : Request) (fields : Fields) (id : Uuid) (w : World)
      → r.bind ≡ some fields
      → env.uuid_parse (text_field fields "tenant_id") ≡ some id
      → (serve env config (management ManagementRoute.revoke_tenant) r w).0.status ≡ 200
      → Ended
          (λ s. s.tenant_id == id)
          w
          (serve env config (management ManagementRoute.revoke_tenant) r w).1
  unfolding manage
  revoke_tenant_is_exact r fields id w bound parsed h =
      management_success env config laws ManagementRoute.revoke_tenant r w (refuses-tenant r)
        (λ u ticked. record {
          at = λ a v run.
              Ended-after _ w u v ticked ((ends_tenant r fields id u bound parsed).at a v run);
        })
        (answered _ h)

  -- If the request to revoke the tokens of a user names an id and is answered with status 200, then
  -- exactly the live sessions of that user are revoked, and exactly the live access and refresh tokens
  -- of its sessions, whether these were live or not; nothing else in the database has changed.
  pub revoke_user_is_exact :
      (r : Request) (fields : Fields) (id : Uuid) (w : World)
      → r.bind ≡ some fields
      → env.uuid_parse (text_field fields "user_id") ≡ some id
      → (serve env config (management ManagementRoute.revoke_user) r w).0.status ≡ 200
      → Ended
          (λ s. s.user_id == id)
          w
          (serve env config (management ManagementRoute.revoke_user) r w).1
  unfolding manage
  revoke_user_is_exact r fields id w bound parsed h =
      management_success env config laws ManagementRoute.revoke_user r w (refuses-user r)
        (λ u ticked. record {
          at = λ a v run.
              Ended-after _ w u v ticked ((ends_user r fields id u bound parsed).at a v run);
        })
        (answered _ h)
