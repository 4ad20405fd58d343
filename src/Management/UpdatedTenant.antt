-- ===== src/Management/UpdatedTenant.antt =====
-- What a request to update a tenant has checked and written, when it comes to its end.
use oidc_demo.Base.{
  ℕ, suc, some, ◌≡◌, sym, ap, ◌∙◌, subst, ◌==◌, find?, map, change, All, found-All, replaced-All,
}
use oidc_demo.Gorm.{GormLaws}
use oidc_demo.Model.{Uuid, Time, Tenant}
use oidc_demo.World.{World, Env, tenants, advance}
use oidc_demo.Http.{Request, Fields}
use oidc_demo.Outcome.{
  Ensures, ensures-bind, ensures-pure, ensures-or_raise, ensures-first, ensures-map_err,
}
use oidc_demo.Outcome.Statements.{ensures-save}
use oidc_demo.Store.Tenants
use oidc_demo.Management.Tenant.{apply_lifetimes, handle_update}
use oidc_demo.Management.NewTenant.{IsValidTenant, ensures-raise_text}
use oidc_demo.Management.TakenFields.{Takes, ensures-apply_name, all_taken, Takes-IsValidTenant}

-- The tenant of the path takes the fields of the body, and nothing else changes.
pub record UpdatesTenant (env : Env) (r : Request) (w v : World) : Type 0 where
  pub id : Uuid
  pub fields : Fields
  pub old : Tenant
  pub now : Tenant
  pub is_named : env.uuid_parse (r.param "tenant_id") ≡ some id
  pub has_body : r.bind ≡ some fields
  pub is_found : find? (λ t. t.id == id) w.tenants ≡ some old
  pub takes : Takes fields old now
  pub tick : ℕ
  pub rest :
      v
      ≡ record w { tick = tick; tenants = map (change (λ t. t.id == old.id) (λ t. now)) w.tenants }

-- If all tenants are valid before an update, they are after it.
pub UpdatesTenant-AllValid :
    (env : Env) (r : Request) (w v : World)
    → UpdatesTenant env r w v
    → All IsValidTenant w.tenants
    → All IsValidTenant v.tenants
UpdatesTenant-AllValid env r w v h all =
    subst (λ (x : World). All IsValidTenant x.tenants) (sym h.rest)
      (replaced-All IsValidTenant _ h.now w.tenants
        (Takes-IsValidTenant h.fields h.old h.now h.takes
          (found-All IsValidTenant _ w.tenants h.old all h.is_found))
        all)

-- The table with the row of that id replaced.
abbrev replaced : Uuid → Tenant → World → World
replaced id now w = record w {
  tick = suc w.tick;
  tenants = map (change (λ t. t.id == id) (λ t. now)) w.tenants;
}

module _ (env : Env) (laws : GormLaws env.gorm) where
  pub ensures-update_tenant :
      (r : Request) (w : World) → Ensures (handle_update env r) w (λ _ v. UpdatesTenant env r w v)
  unfolding handle_update Tenants.find_by_id Tenants.update
  ensures-update_tenant r w = ensures-bind (ensures-or_raise _ _ w) λ id w1 e1.
      ensures-bind (ensures-map_err _ (ensures-first env tenants laws _ w1)) λ found w2 e2.
        ensures-bind (ensures-or_raise found _ w2) λ old w3 e3.
          ensures-bind (ensures-or_raise _ _ w3) λ fields w4 e4.
            ensures-bind (ensures-raise_text _ w4) λ u w5 e5.
              ensures-bind (ensures-apply_name _ old w5) λ named w6 (taken, same, e6).
                ensures-bind
                  (ensures-map_err _ (
                    ensures-bind
                      {Q = λ _ v.
                        (at : Time) × (v
                          ≡ tenants.set
                              (map
                                (change (λ t. t.id == (apply_lifetimes fields named).id)
                                  (λ t. record (apply_lifetimes fields named) { updated_at = at }))
                                w6.tenants)
                              (advance env w6))}
                      (ensures-save env tenants laws _ _ w6)
                      λ at w7 state. ensures-pure _ w7 _ (at, state)))
                  λ saved w7 (at, state).
                    let start : w6 ≡ advance env w =
                      sym (e3.1 ∙ e4.1 ∙ e5.1 ∙ e6) ∙ e2.1 ∙ ap (advance env) (sym e1.1) in
                    let takes = all_taken fields old named at e5.0 taken same in
                    ensures-pure _ w7 _ (record {
                      id = id;
                      fields = fields;
                      old = old;
                      now = record (apply_lifetimes fields named) { updated_at = at };
                      is_named = e1.0;
                      has_body = e4.0;
                      is_found =
                          ap (λ (x : World). find? (λ t. t.id == id) x.tenants) e1.1
                          ∙ sym e2.0
                          ∙ e3.0;
                      takes = takes;
                      tick = suc (suc w.tick);
                      rest =
                          state
                          ∙ ap
                              (λ n.
                                replaced n
                                  (record (apply_lifetimes fields named) { updated_at = at }) w6)
                              takes.id
                          ∙ ap
                              (replaced old.id
                                (record (apply_lifetimes fields named) { updated_at = at }))
                              start;
                    })
