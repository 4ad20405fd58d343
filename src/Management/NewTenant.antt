-- ===== src/Management/NewTenant.antt =====
-- What a request to create a tenant has checked and written, when it comes to its end.
use oidc_demo.Base.{
  ℕ, ℤ, pos, negsuc, zero, suc, String, Bool, true, false, Option, none, some, List, ◌∷◌, ◌≡◌, ◌≢◌,
  refl, sym, ap, ◌∙◌, subst, ◌≤◌, find?, Insert, not, is_some, len, ltb, str_eq, arith, eq_iff,
}
use oidc_demo.Gorm.{GormLaws}
use oidc_demo.Model.{Tenant}
use oidc_demo.World.{World, Env, tenants, advance}
use oidc_demo.Http.{Request, Fields, text_field}
use oidc_demo.Outcome.{
  Ensures, ensures-bind, ensures-pure, ensures-raise, ensures-raise_if, ensures-or_raise,
  ensures-first, ensures-create, ensures-map_err,
}
use oidc_demo.Store.Tenants
use oidc_demo.Management.RedirectUri.{raise_text}
use oidc_demo.Management.Tenant.{
  validate_lifetimes, or_default, lifetimes, new_tenant, check_new, handle_create,
}
use oidc_demo.Management.TenantCode.{tenant_code_matches, tenant_code_regex}
use oidc_demo.Management.TenantCode.Pattern.{Describes, tenant_code_matches-Describes}

-- A code that the pattern describes, a name of 1 to 255 bytes, and positive lifetimes.
pub record IsValidTenant (t : Tenant) : Type 0 where
  pub code : Describes tenant_code_regex t.code
  pub name : (t.name ≢ "") × (len t.name ≤ 255)
  pub session : 1 ≤ t.session_lifetime
  pub auth_code : 1 ≤ t.auth_code_lifetime
  pub access_token : 1 ≤ t.access_token_lifetime
  pub refresh_token : 1 ≤ t.refresh_token_lifetime
  pub id_token : 1 ≤ t.id_token_lifetime

-- One tenant is added, which is valid, and whose code no tenant had.
pub record AddsTenant (w v : World) : Type 0 where
  pub tenant : Tenant
  pub tick : ℕ
  pub rows : List Tenant
  pub is_valid : IsValidTenant tenant
  pub is_new : find? (λ t. str_eq t.code tenant.code) w.tenants ≡ none
  pub is_added : Insert tenant w.tenants rows
  pub rest : v ≡ record w { tick = tick; tenants = rows }

pub ensures-raise_text :
    (o : Option String) (w : World) → Ensures (raise_text o) w (λ _ v. (o ≡ none) × (w ≡ v))
unfolding raise_text
ensures-raise_text none w = ensures-pure tt w _ (refl, refl)
ensures-raise_text (some s) w = ensures-raise _ w _

pub is_nonempty : (s : String) → str_eq s "" ≡ false → s ≢ ""
is_nonempty s h e = ground (arith, eq_iff s "")

pub fits : (n : ℕ) → ltb 255 n ≡ false → n ≤ 255
fits n h = ground arith

is_accepted : (b : Bool) → not b ≡ false → b ≡ true
is_accepted b h = ground arith

-- The first lifetime is positive, given or not, and the others are accepted.
lifetime :
    (v : Option ℤ) (vals : List (Option ℤ)) (n : ℕ)
    → 1 ≤ n
    → validate_lifetimes (v ∷ vals) ≡ none
    → (1 ≤ or_default v n) × (validate_lifetimes vals ≡ none)
unfolding validate_lifetimes or_default
lifetime none vals n le h = (le, h)
lifetime (some (pos zero)) vals n le h = absurd (cc)
lifetime (some (pos (suc k))) vals n le h = (omega arith, h)
lifetime (some (negsuc k)) vals n le h = absurd (cc)

-- What `check_new` has found.
record IsChecked (fields : Fields) : Type 0 where
  code : tenant_code_matches (text_field fields "code") ≡ true
  nonempty : str_eq (text_field fields "name") "" ≡ false
  short : ltb 255 (len (text_field fields "name")) ≡ false
  positive : validate_lifetimes (lifetimes fields) ≡ none

ensures-check_new :
    (fields : Fields) (w : World) → Ensures (check_new fields) w (λ _ v. IsChecked fields × (w ≡ v))
unfolding check_new
ensures-check_new fields w = ensures-bind (ensures-raise_if _ _ w) λ u1 w1 e1.
    ensures-bind (ensures-raise_if _ _ w1) λ u2 w2 e2.
      ensures-bind (ensures-raise_if _ _ w2) λ u3 w3 e3.
        ensures-bind (ensures-raise_if _ _ w3) λ u4 w4 e4. record {
          at = λ u v run.
              let (valid, same) = (ensures-raise_text _ w4).at u v run in
              (
                record {
                  code = is_accepted _ e2.0;
                  nonempty = e3.0;
                  short = e4.0;
                  positive = valid;
                },
                e1.1 ∙ e2.1 ∙ e3.1 ∙ e4.1 ∙ same,
              );
        }

made_valid :
    (fields : Fields) (id at : ℕ) → IsChecked fields → IsValidTenant (new_tenant fields id at)
unfolding new_tenant
made_valid fields id at h =
    let (s, hs) = lifetime _ _ 3600 (omega arith) h.positive in
    let (c, hc) = lifetime _ _ 60 (omega arith) hs in
    let (a, ha) = lifetime _ _ 3600 (omega arith) hc in
    let (r, hr) = lifetime _ _ 2592000 (omega arith) ha in
    let (i, hi) = lifetime _ _ 3600 (omega arith) hr in
    record {
      code = (tenant_code_matches-Describes _).0 h.code;
      name = (is_nonempty _ h.nonempty, fits _ h.short);
      session = s;
      auth_code = c;
      access_token = a;
      refresh_token = r;
      id_token = i;
    }

code_kept :
    (fields : Fields) (id at : ℕ) → text_field fields "code" ≡ (new_tenant fields id at).code
unfolding new_tenant
code_kept fields id at = refl

unfound : {A : Type 0} (o : Option A) → is_some o ≡ false → o ≡ none
unfound none h = refl
unfound (some a) h = absurd (cc)

module _ (env : Env) (laws : GormLaws env.gorm) where
  pub ensures-create_tenant :
      (r : Request) (w : World) → Ensures (handle_create env r) w (λ _ v. AddsTenant w v)
  unfolding handle_create Tenants.find_by_code Tenants.create_tenant
  ensures-create_tenant r w = ensures-bind (ensures-or_raise _ _ w) λ fields w1 e1.
      ensures-bind (ensures-check_new fields w1) λ u2 w2 e2.
        ensures-bind (ensures-map_err _ (ensures-first env tenants laws _ w2)) λ existing w3 e3.
          ensures-bind (ensures-raise_if _ _ w3) λ u4 w4 e4.
            ensures-bind (ensures-map_err _ (ensures-create env tenants laws _ _ w4))
              λ t w5 (rows, added, (id, at, made), state).
                let start : w4 ≡ advance env w =
                  sym e4.1 ∙ e3.1 ∙ ap (advance env) (sym (e1.1 ∙ e2.1)) in
                ensures-pure _ w5 _ (record {
                  tenant = t;
                  tick = suc (suc w.tick);
                  rows = rows;
                  is_valid = subst IsValidTenant (sym made) (made_valid fields id at e2.0);
                  is_new =
                      subst (λ (x : World). find? (λ t'. str_eq t'.code t.code) x.tenants ≡ none)
                        (sym (e1.1 ∙ e2.1))
                        (subst (λ c. find? (λ t'. str_eq t'.code c) w2.tenants ≡ none)
                          (code_kept fields id at ∙ sym (ap (λ (x : Tenant). x.code) made))
                          (sym e3.0 ∙ unfound existing e4.0));
                  is_added = subst (λ (x : World). Insert t x.tenants rows) start added;
                  rest =
                      state
                      ∙ ap (λ (x : World). record x { tick = suc x.tick; tenants = rows }) start;
                })
