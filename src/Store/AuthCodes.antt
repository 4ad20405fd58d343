-- ===== src/Store/AuthCodes.antt =====
-- authorization_code_repository.go
use oidc_demo.Base.{ℕ, String, Bool, Option, none, some, List, [], ◌∷◌, ◌||◌, ◌==◌, str_eq}
use oidc_demo.Model.{Uuid, Time, Session, AuthorizationCode}
use oidc_demo.World.{
  Env, M, auth_codes, sessions, clients, first, find, updates, create, time_now, ◌>>=◌, ◌>>◌, pure,
}

abbrev pub clash : AuthorizationCode → AuthorizationCode → Bool
clash a b = a.id == b.id || str_eq a.code b.code

-- A preloaded association that has no row keeps the zero value.
abbrev pub zero_session : Session
zero_session = record {
  id = 0;
  user_id = 0;
  tenant_id = 0;
  ip_address = "";
  user_agent = "";
  expires_at = 0;
  revoked_at = none;
  created_at = 0;
  updated_at = 0;
}

abbrev pub session_or_zero : List Session → Session
session_or_zero [] = zero_session
session_or_zero (s ∷ rest) = s

module _ (env : Env) where
  unfoldable pub create_code : (Uuid → Time → AuthorizationCode) → M AuthorizationCode
  create_code mk = create env auth_codes clash mk

  -- `Preload("Session")` and `Preload("Client")` for the row that the query found
  unfoldable pub preload : Option AuthorizationCode → M (Option (AuthorizationCode × Session))
  preload none = pure none
  preload (some ac) = do
    found ← find env sessions (λ s. s.id == ac.session_id)
    find env clients (λ c. c.id == ac.client_id)
    pure (some (ac, session_or_zero found))

  unfoldable pub find_by_code : String → M (Option (AuthorizationCode × Session))
  unfolding preload
  find_by_code code = do ac ← first env auth_codes (λ ac. str_eq ac.code code); preload ac

  unfoldable pub mark_as_used : Uuid → M ℕ
  mark_as_used id = do
    now ← time_now env
    updates env auth_codes (λ ac. ac.id == id) (λ at ac. record ac { used_at = some now })
