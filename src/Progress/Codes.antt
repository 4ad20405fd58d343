-- ===== src/Progress/Codes.antt =====
-- The repositories of authorization codes and of sessions.
use oidc_demo.Base.{
  String, Bool, true, Option, some, none, List, ◌≡◌, refl, marked, marked-Insert, is_some, str_eq,
  ◌==◌,
}
use oidc_demo.Gorm.{GormLaws}
use oidc_demo.Model.{Uuid, Time, AuthorizationCode, Session}
use oidc_demo.World.{World, Env, auth_codes, sessions, clients, advance}
use oidc_demo.Progress.Order.{Later, code_used, session_revoked}
use oidc_demo.Progress.Rules.{Grows, Grows-bind, Grows-time_now, Grows-pure}
use oidc_demo.Progress.Statements.{Grows-updates, Grows-create, Grows-first, Grows-find}
use oidc_demo.Progress.Rows.{marked-change, clash_of_key, clash_of_id}
use oidc_demo.Store.AuthCodes
use oidc_demo.Store.Sessions

module _ (env : Env) where
  codes-Later :
      (w : World) (rows : List AuthorizationCode)
      → ((code : String)
          → code_used code w ≡ true
          → marked (λ ac. str_eq ac.code code) (λ ac. is_some ac.used_at) rows ≡ true)
      → Later w (auth_codes.set rows (advance env w))
  codes-Later w rows h = record {
    codes = h;
    access = λ c h. h;
    refresh = λ c h. h;
    sessions = λ c h. h;
    admins = λ c h. h;
  }

  sessions-Later :
      (w : World) (rows : List Session)
      → ((id : Uuid)
          → session_revoked id w ≡ true
          → marked (λ s. s.id == id) (λ s. is_some s.revoked_at) rows ≡ true)
      → Later w (sessions.set rows (advance env w))
  sessions-Later w rows h = record {
    codes = λ c h. h;
    access = λ c h. h;
    refresh = λ c h. h;
    sessions = h;
    admins = λ c h. h;
  }

  module _ (laws : GormLaws env.gorm) where
    pub Grows-create_code :
        (mk : Uuid → Time → AuthorizationCode) → Grows (AuthCodes.create_code env mk)
    unfolding AuthCodes.create_code
    Grows-create_code mk =
        Grows-create env auth_codes laws AuthCodes.clash mk λ w id at rows fresh i.
          codes-Later w rows λ code.
            marked-Insert (λ ac. str_eq ac.code code) (λ ac. is_some ac.used_at) AuthCodes.clash
              (λ s on os. clash_of_key ((mk id at).id == s.id) (mk id at).code s.code code on os)
              fresh i

    pub Grows-mark_as_used : (id : Uuid) → Grows (AuthCodes.mark_as_used env id)
    unfolding AuthCodes.mark_as_used
    Grows-mark_as_used id = Grows-bind (Grows-time_now env) λ now.
        Grows-updates env auth_codes laws (λ ac. ac.id == id)
          (λ at ac. record ac { used_at = some now })
          λ w at. codes-Later w _ λ code.
            marked-change (λ ac. str_eq ac.code code) (λ ac. is_some ac.used_at) (λ ac. ac.id == id)
              (λ ac. record ac { used_at = some now }) w.auth_codes (λ r. refl) (λ r h. refl)

    pub Grows-create_session : (mk : Uuid → Time → Session) → Grows (Sessions.create_session env mk)
    unfolding Sessions.create_session
    Grows-create_session mk =
        Grows-create env sessions laws Sessions.clash mk λ w id at rows fresh i.
          sessions-Later w rows λ key.
            marked-Insert (λ s. s.id == key) (λ s. is_some s.revoked_at) Sessions.clash
              (λ s on os. clash_of_id (mk id at).id s.id key on os) fresh i

    pub Grows-revoke_sessions : (p : Session → Bool) → Grows (Sessions.revoke_where env p)
    unfolding Sessions.revoke_where
    Grows-revoke_sessions p = Grows-bind (Grows-time_now env) λ now.
        Grows-updates env sessions laws _ (Sessions.revoked now) λ w at. sessions-Later w _ λ key.
          marked-change (λ s. s.id == key) (λ s. is_some s.revoked_at) _ (Sessions.revoked now at)
            w.sessions (λ r. refl) (λ r h. refl)

  Grows-preload_code : (o : Option AuthorizationCode) → Grows (AuthCodes.preload env o)
  unfolding AuthCodes.preload
  Grows-preload_code none = Grows-pure none
  Grows-preload_code (some ac) =
      Grows-bind (Grows-find env sessions _)
        λ found. Grows-bind (Grows-find env clients _) λ rest. Grows-pure _

  pub Grows-find_by_code : (code : String) → Grows (AuthCodes.find_by_code env code)
  unfolding AuthCodes.find_by_code
  Grows-find_by_code code = Grows-bind (Grows-first env auth_codes _) Grows-preload_code

  pub Grows-find_session : (id : Uuid) → Grows (Sessions.find_by_id env id)
  unfolding Sessions.find_by_id
  Grows-find_session id = Grows-first env sessions _

pub ruleset codes_rules = (
  Grows-create_code, Grows-mark_as_used, Grows-create_session, Grows-revoke_sessions,
  Grows-find_by_code, Grows-find_session,
)
