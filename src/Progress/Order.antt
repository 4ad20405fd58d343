-- ===== src/Progress/Order.antt =====
-- The marks that no request takes back, and the order of worlds that keeps them.
use oidc_demo.Base.{String, Bool, true, ◌≡◌, subst, ◌==◌, str_eq, is_some, marked}
use oidc_demo.Model.{Uuid}
use oidc_demo.World.{World}

-- The row that a lookup by its key finds is used or revoked.
abbrev pub code_used : String → World → Bool
code_used code w = marked (λ ac. str_eq ac.code code) (λ ac. is_some ac.used_at) w.auth_codes

abbrev pub access_revoked : String → World → Bool
access_revoked jti w = marked (λ t. str_eq t.jti jti) (λ t. is_some t.revoked_at) w.access_tokens

abbrev pub refresh_revoked : String → World → Bool
refresh_revoked hash w =
    marked (λ t. str_eq t.token_hash hash) (λ t. is_some t.revoked_at) w.refresh_tokens

abbrev pub session_revoked : Uuid → World → Bool
session_revoked id w = marked (λ s. s.id == id) (λ s. is_some s.revoked_at) w.sessions

abbrev pub admin_revoked : Uuid → World → Bool
admin_revoked id w = marked (λ s. s.id == id) (λ s. is_some s.revoked_at) w.admin_sessions

pub record Later (w v : World) : Type 0 where
  pub codes : (code : String) → code_used code w ≡ true → code_used code v ≡ true
  pub access : (jti : String) → access_revoked jti w ≡ true → access_revoked jti v ≡ true
  pub refresh : (hash : String) → refresh_revoked hash w ≡ true → refresh_revoked hash v ≡ true
  pub sessions : (id : Uuid) → session_revoked id w ≡ true → session_revoked id v ≡ true
  pub admins : (id : Uuid) → admin_revoked id w ≡ true → admin_revoked id v ≡ true

pub Later-refl : (w : World) → Later w w
Later-refl w = record {
  codes = λ c h. h;
  access = λ c h. h;
  refresh = λ c h. h;
  sessions = λ c h. h;
  admins = λ c h. h;
}

pub Later-trans : {u v w : World} → Later u v → Later v w → Later u w
Later-trans a b = record {
  codes = λ c h. b.codes c (a.codes c h);
  access = λ c h. b.access c (a.access c h);
  refresh = λ c h. b.refresh c (a.refresh c h);
  sessions = λ c h. b.sessions c (a.sessions c h);
  admins = λ c h. b.admins c (a.admins c h);
}

-- A step that leaves the five tables alone.
pub Later-same :
    {w v : World}
    → w.auth_codes ≡ v.auth_codes
    → w.access_tokens ≡ v.access_tokens
    → w.refresh_tokens ≡ v.refresh_tokens
    → w.sessions ≡ v.sessions
    → w.admin_sessions ≡ v.admin_sessions
    → Later w v
Later-same c a r s d = record {
  codes =
      λ code. subst (λ t. marked (λ ac. str_eq ac.code code) (λ ac. is_some ac.used_at) t ≡ true) c;
  access =
      λ jti. subst (λ t. marked (λ x. str_eq x.jti jti) (λ x. is_some x.revoked_at) t ≡ true) a;
  refresh = λ hash.
      subst (λ t. marked (λ x. str_eq x.token_hash hash) (λ x. is_some x.revoked_at) t ≡ true) r;
  sessions = λ id. subst (λ t. marked (λ x. x.id == id) (λ x. is_some x.revoked_at) t ≡ true) s;
  admins = λ id. subst (λ t. marked (λ x. x.id == id) (λ x. is_some x.revoked_at) t ≡ true) d;
}
