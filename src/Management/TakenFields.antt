-- ===== src/Management/TakenFields.antt =====
-- The fields that an update of a tenant takes from the body of the request.
use oidc_demo.Base.{
  ℕ, ℤ, pos, negsuc, zero, suc, String, Bool, false, Option, none, some, List, ◌∷◌, ◌≡◌, ◌≢◌, refl,
  sym, ap, subst, ◌≤◌, ◌||◌, len, ltb, str_eq, arith,
}
use oidc_demo.Model.{Time, Tenant}
use oidc_demo.World.{World}
use oidc_demo.Http.{Fields}
use oidc_demo.Outcome.{Ensures, ensures-bind, ensures-pure, ensures-raise_if}
use oidc_demo.Management.Tenant.{
  validate_lifetimes, or_default, lifetimes, apply_name, apply_lifetimes,
}
use oidc_demo.Management.TenantCode.{tenant_code_regex}
use oidc_demo.Management.TenantCode.Pattern.{Describes}
use oidc_demo.Management.NewTenant.{IsValidTenant, is_nonempty, fits}

-- A number that is given is positive and is the new one; otherwise the old one stays.
abbrev pub TakesNumber : Option ℤ → ℕ → ℕ → Type 0
TakesNumber none old now = now ≡ old
TakesNumber (some v) old now = (v ≡ pos now) × (1 ≤ now)

-- A name that is given has 1 to 255 bytes and is the new one; otherwise the old one stays.
abbrev pub TakesName : Option String → String → String → Type 0
TakesName none old now = now ≡ old
TakesName (some name) old now = (name ≡ now) × (now ≢ "") × (len now ≤ 255)

-- The row with the fields that the request gives, and the others as they were.
pub record Takes (fields : Fields) (old now : Tenant) : Type 0 where
  pub id : now.id ≡ old.id
  pub code : now.code ≡ old.code
  pub created_at : now.created_at ≡ old.created_at
  pub name : TakesName (fields.pointer "name") old.name now.name
  pub session :
      TakesNumber (fields.number "session_lifetime") old.session_lifetime now.session_lifetime
  pub auth_code :
      TakesNumber (fields.number "auth_code_lifetime") old.auth_code_lifetime now.auth_code_lifetime
  pub access_token :
      TakesNumber
        (fields.number "access_token_lifetime")
        old.access_token_lifetime
        now.access_token_lifetime
  pub refresh_token :
      TakesNumber
        (fields.number "refresh_token_lifetime")
        old.refresh_token_lifetime
        now.refresh_token_lifetime
  pub id_token :
      TakesNumber (fields.number "id_token_lifetime") old.id_token_lifetime now.id_token_lifetime

number_taken :
    (v : Option ℤ) (vals : List (Option ℤ)) (old : ℕ)
    → validate_lifetimes (v ∷ vals) ≡ none
    → TakesNumber v old (or_default v old) × (validate_lifetimes vals ≡ none)
unfolding validate_lifetimes or_default
number_taken none vals old h = (refl, h)
number_taken (some (pos zero)) vals old h = absurd (cc)
number_taken (some (pos (suc k))) vals old h = ((refl, omega arith), h)
number_taken (some (negsuc k)) vals old h = absurd (cc)

neither : (a b : Bool) → (a || b) ≡ false → (a ≡ false) × (b ≡ false)
neither a b h = (ground arith, ground arith)

pub name_taken :
    (name : String)
    → (str_eq name "" || ltb 255 (len name)) ≡ false
    → TakesName (some name) name name
name_taken name h =
    let (filled, short) = neither _ _ h in (refl, is_nonempty name filled, fits _ short)

pub ensures-apply_name :
    (o : Option String) (t : Tenant) (w : World)
    → Ensures
        (apply_name o t)
        w
        (λ t' v. TakesName o t.name t'.name × (t' ≡ record t { name = t'.name }) × (w ≡ v))
unfolding apply_name
ensures-apply_name none t w = ensures-pure t w _ (refl, refl, refl)
ensures-apply_name (some name) t w =
    ensures-bind (ensures-raise_if _ _ w)
      λ u w1 e1. ensures-pure _ w1 _ (name_taken name e1.0, refl, e1.1)

pub all_taken :
    (fields : Fields) (old named : Tenant) (at : Time)
    → validate_lifetimes (lifetimes fields) ≡ none
    → TakesName (fields.pointer "name") old.name named.name
    → named ≡ record old { name = named.name }
    → Takes fields old (record (apply_lifetimes fields named) { updated_at = at })
unfolding apply_lifetimes
all_taken fields old named at valid name same =
    let (s, hs) = number_taken _ _ named.session_lifetime valid in
    let (c, hc) = number_taken _ _ named.auth_code_lifetime hs in
    let (a, ha) = number_taken _ _ named.access_token_lifetime hc in
    let (r, hr) = number_taken _ _ named.refresh_token_lifetime ha in
    let (i, hi) = number_taken _ _ named.id_token_lifetime hr in
    record {
      id = ap (λ (t : Tenant). t.id) same;
      code = ap (λ (t : Tenant). t.code) same;
      created_at = ap (λ (t : Tenant). t.created_at) same;
      name = name;
      session =
          from (fields.number "session_lifetime") _ (ap (λ (t : Tenant). t.session_lifetime) same)
            s;
      auth_code =
          from (fields.number "auth_code_lifetime") _
            (ap (λ (t : Tenant). t.auth_code_lifetime) same) c;
      access_token =
          from (fields.number "access_token_lifetime") _
            (ap (λ (t : Tenant). t.access_token_lifetime) same) a;
      refresh_token =
          from (fields.number "refresh_token_lifetime") _
            (ap (λ (t : Tenant). t.refresh_token_lifetime) same) r;
      id_token =
          from (fields.number "id_token_lifetime") _ (ap (λ (t : Tenant). t.id_token_lifetime) same)
            i;
    }
  where
    from : (v : Option ℤ) {a b : ℕ} (now : ℕ) → a ≡ b → TakesNumber v a now → TakesNumber v b now
    from v now e h = subst (λ n. TakesNumber v n now) e h

still_positive : (v : Option ℤ) (old now : ℕ) → TakesNumber v old now → 1 ≤ old → 1 ≤ now
still_positive none old now h le = omega arith
still_positive (some v) old now h le = h.1

pub still_named :
    (o : Option String) (old now : String)
    → TakesName o old now
    → (old ≢ "") × (len old ≤ 255)
    → (now ≢ "") × (len now ≤ 255)
still_named none old now h valid = subst (λ s. (s ≢ "") × (len s ≤ 255)) (sym h) valid
still_named (some name) old now h valid = (h.1, h.2)

-- A valid tenant stays valid.
pub Takes-IsValidTenant :
    (fields : Fields) (old now : Tenant)
    → Takes fields old now
    → IsValidTenant old
    → IsValidTenant now
Takes-IsValidTenant fields old now h valid = record {
  code = subst (Describes tenant_code_regex) (sym h.code) valid.code;
  name = still_named _ _ _ h.name valid.name;
  session = still_positive _ _ _ h.session valid.session;
  auth_code = still_positive _ _ _ h.auth_code valid.auth_code;
  access_token = still_positive _ _ _ h.access_token valid.access_token;
  refresh_token = still_positive _ _ _ h.refresh_token valid.refresh_token;
  id_token = still_positive _ _ _ h.id_token valid.id_token;
}
