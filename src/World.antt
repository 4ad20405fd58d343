-- ===== src/World.antt =====
-- What a request acts on: the tables of the database, and the actions that read and write them.
-- `tick` counts the calls of what may answer differently each time.
use oidc_demo.Base.{ℕ, suc, String, Bool, true, false, Option, none, some, List}
use oidc_demo.Model.{
  Uuid, Time, Tenant, Client, RedirectUri, User, Session, AuthorizationCode, AccessToken,
  RefreshToken, IdToken, SignKey, Jwt, Jwk, PostLogoutRedirectUri, AdminUser, AdminSession,
}
use oidc_demo.Gorm.{Reply, done, failed}
pub use oidc_demo.Env.{Env}

-- The sentinel errors of oidc/errors.go and auth/errors.go; `internal` is any other error, as
-- `fmt.Errorf` makes them. The three sentinels of management/auth_service.go come last.
pub data Error : Type 0 where
  invalid_client invalid_grant unsupported_grant_type : Error
  invalid_credentials session_not_found session_expired : Error
  internal : Error
  admin_invalid_credentials admin_session_not_found admin_session_expired : Error

pub data Result (E A : Type 0) : Type 0 where
  ok : A → Result E A
  err : E → Result E A

pub record World : Type 0 where
  pub tick : ℕ
  pub tenants : List Tenant
  pub clients : List Client
  pub redirect_uris : List RedirectUri
  pub users : List User
  pub sessions : List Session
  pub auth_codes : List AuthorizationCode
  pub access_tokens : List AccessToken
  pub refresh_tokens : List RefreshToken
  pub id_tokens : List IdToken
  pub sign_keys : List SignKey
  pub post_logout_redirect_uris : List PostLogoutRedirectUri
  pub admin_users : List AdminUser
  pub admin_sessions : List AdminSession

-- One table of the database: how to read it and how to write it back.
pub record Table (Row : Type 0) : Type 0 where
  pub rows : World → List Row
  pub set : List Row → World → World

-- An action that may fail. What was written before an error stays written.
abbrev pub Exec : Type 0 → Type 0 → Type 0
Exec E A = World → Result E A × World

-- A service's method, and an HTTP handler in its course: an early response ends it.
abbrev pub M : Type 0 → Type 0
M = Exec Error

module _ {E A : Type 0} where
  unfoldable pub pure : A → Exec E A
  pure a w = (ok a, w)

  unfoldable pub raise : E → Exec E A
  raise e w = (err e, w)

  unfoldable pub lift : Result E A → Exec E A
  lift r w = (r, w)

  -- A nil pointer, or a pointer that is used from here on.
  unfoldable pub or_raise : Option A → E → Exec E A
  or_raise none e w = (err e, w)
  or_raise (some a) e w = (ok a, w)

module _ {E : Type 0} where
  -- `if cond { return nil, e }`
  unfoldable pub raise_if : Bool → E → Exec E Unit
  raise_if true e w = (err e, w)
  raise_if false e w = (ok tt, w)

  -- `_ = m`: an ignored error.
  unfoldable pub ignore : {F A : Type 0} → Exec F A → Exec E Unit
  ignore m w = (ok tt, (m w).1)

abbrev pub result_option : {E A : Type 0} → Result E A → Option A
result_option (ok a) = some a
result_option (err e) = none

module _ {E F A : Type 0} where
  -- `a, err := m`, where any error is answered alike and ends nothing
  unfoldable pub attempt : Exec E A → Exec F (Option A)
  attempt m w = (ok (result_option (m w).0), (m w).1)

  abbrev pub result_map_err : (E → F) → Result E A → Result F A
  result_map_err f (ok a) = ok a
  result_map_err f (err e) = err (f e)

  unfoldable pub map_err : (E → F) → Exec E A → Exec F A
  map_err f m w = (result_map_err f (m w).0, (m w).1)

module _ {E A B : Type 0} where
  abbrev pub continue : Result E A → (A → Exec E B) → Exec E B
  continue (ok a) f w = f a w
  continue (err e) f w = (err e, w)

  infixl 10 ◌>>=◌ ◌>>◌
  unfoldable pub ◌>>=◌ : Exec E A → (A → Exec E B) → Exec E B
  unfolding pure raise lift
  ◌>>=◌ m f w = let (r, w') = m w in continue r f w'

  abbrev pub ◌>>◌ : Exec E A → Exec E B → Exec E B
  m >> n = m >>= λ _. n

module _ (env : Env) where
  abbrev pub advance : World → World
  advance w = record w { tick = suc w.tick }

  unfoldable pub time_now : M Time
  time_now w = (ok (env.now w.tick), advance w)

  abbrev pub or_internal : {A : Type 0} → Option A → M A
  or_internal none w = (err internal, w)
  or_internal (some a) w = (ok a, w)

  -- `rand.Read` into a slice of that many bytes
  unfoldable pub rand_read : ℕ → M (List ℕ)
  rand_read size w = or_internal (env.rand_read w.tick size) (advance w)

  unfoldable pub rsa_key : M (List ℕ)
  rsa_key w = or_internal (env.rsa_generate_key w.tick) (advance w)

  unfoldable pub jwt_parse : List Jwk → String → M (Option Jwt)
  jwt_parse keys text w = (ok (env.jwt_parse w.tick keys text), advance w)

  unfoldable pub new_uuid : M String
  new_uuid w = (ok (env.new_uuid w.tick), advance w)

  module _ {Row : Type 0} (table : Table Row) where
    abbrev pub read_reply : {A : Type 0} → Reply A → M A
    read_reply (done a) w = (ok a, advance w)
    read_reply failed w = (err internal, advance w)

    abbrev pub write_reply : {A : Type 0} → Reply (A × List Row) → M A
    write_reply (done (a, rows)) w = (ok a, table.set rows (advance w))
    write_reply failed w = (err internal, advance w)

    unfoldable pub first : (Row → Bool) → M (Option Row)
    first p w = read_reply (env.gorm.first w.tick p (table.rows w)) w

    unfoldable pub find : (Row → Bool) → M (List Row)
    find p w = read_reply (env.gorm.find w.tick p (table.rows w)) w

    unfoldable pub first_desc : (Row → Time) → (Row → Bool) → M (Option Row)
    first_desc key p w = read_reply (env.gorm.first_desc w.tick key p (table.rows w)) w

    unfoldable pub find_desc : (Row → Time) → (Row → Bool) → M (List Row)
    find_desc key p w = read_reply (env.gorm.find_desc w.tick key p (table.rows w)) w

    -- the number of the rows written
    unfoldable pub updates : (Row → Bool) → (Time → Row → Row) → M ℕ
    updates p f w = write_reply (env.gorm.updates w.tick p f (table.rows w)) w

    -- the moment that the row carries
    unfoldable pub save : (Row → Bool) → (Time → Row) → M Time
    save p f w = write_reply (env.gorm.save w.tick p f (table.rows w)) w

    unfoldable pub find_asc : (Row → Time) → (Row → Bool) → M (List Row)
    find_asc key p w = read_reply (env.gorm.find_asc w.tick key p (table.rows w)) w

    unfoldable pub count : (Row → Bool) → M ℕ
    count p w = read_reply (env.gorm.count w.tick p (table.rows w)) w

    unfoldable pub page_desc : (Row → Time) → (Row → Bool) → ℕ → ℕ → M (List Row)
    page_desc key p limit offset w =
        read_reply (env.gorm.page_desc w.tick key p limit offset (table.rows w)) w

    abbrev pub delete_reply : Reply (List Row) → M Unit
    delete_reply (done rows) w = (ok tt, table.set rows (advance w))
    delete_reply failed w = (err internal, advance w)

    unfoldable pub delete : (Row → Bool) → M Unit
    delete p w = delete_reply (env.gorm.delete w.tick p (table.rows w)) w

    unfoldable pub create : (Row → Row → Bool) → (Uuid → Time → Row) → M Row
    create clash mk w = write_reply (env.gorm.create w.tick clash mk (table.rows w)) w

-- gorm runs the statements of one `Create` in a transaction: an error undoes them all.
abbrev pub roll_back : {E A : Type 0} → World → Result E A × World → Result E A × World
roll_back w (ok a, v) = (ok a, v)
roll_back w (err e, v) = (err e, record w { tick = v.tick })

unfoldable pub transaction : {E A : Type 0} → Exec E A → Exec E A
transaction m w = roll_back w (m w)

abbrev pub tenants : Table Tenant
tenants = record { rows = λ w. w.tenants; set = λ t w. record w { tenants = t } }

abbrev pub clients : Table Client
clients = record { rows = λ w. w.clients; set = λ t w. record w { clients = t } }

abbrev pub redirect_uris : Table RedirectUri
redirect_uris = record { rows = λ w. w.redirect_uris; set = λ t w. record w { redirect_uris = t } }

abbrev pub users : Table User
users = record { rows = λ w. w.users; set = λ t w. record w { users = t } }

abbrev pub sessions : Table Session
sessions = record { rows = λ w. w.sessions; set = λ t w. record w { sessions = t } }

abbrev pub auth_codes : Table AuthorizationCode
auth_codes = record { rows = λ w. w.auth_codes; set = λ t w. record w { auth_codes = t } }

abbrev pub access_tokens : Table AccessToken
access_tokens = record { rows = λ w. w.access_tokens; set = λ t w. record w { access_tokens = t } }

abbrev pub refresh_tokens : Table RefreshToken
refresh_tokens = record {
  rows = λ w. w.refresh_tokens;
  set = λ t w. record w { refresh_tokens = t };
}

abbrev pub id_tokens : Table IdToken
id_tokens = record { rows = λ w. w.id_tokens; set = λ t w. record w { id_tokens = t } }

abbrev pub sign_keys : Table SignKey
sign_keys = record { rows = λ w. w.sign_keys; set = λ t w. record w { sign_keys = t } }

abbrev pub post_logout_redirect_uris : Table PostLogoutRedirectUri
post_logout_redirect_uris = record {
  rows = λ w. w.post_logout_redirect_uris;
  set = λ t w. record w { post_logout_redirect_uris = t };
}

abbrev pub admin_users : Table AdminUser
admin_users = record { rows = λ w. w.admin_users; set = λ t w. record w { admin_users = t } }

abbrev pub admin_sessions : Table AdminSession
admin_sessions = record {
  rows = λ w. w.admin_sessions;
  set = λ t w. record w { admin_sessions = t };
}
