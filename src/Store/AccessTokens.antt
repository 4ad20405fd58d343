-- ===== src/Store/AccessTokens.antt =====
-- access_token_repository.go
use oidc_demo.Base.{
  ℕ, String, Bool, true, Option, none, some, List, ◌&&◌, ◌||◌, ◌==◌, not, is_some, str_eq, any,
}
use oidc_demo.Model.{Uuid, Time, Session, AccessToken}
use oidc_demo.World.{
  Env, M, access_tokens, sessions, clients, first, find, updates, create, time_now, ◌>>=◌, ◌>>◌,
  pure,
}

abbrev pub clash : AccessToken → AccessToken → Bool
clash a b = a.id == b.id || str_eq a.jti b.jti

abbrev pub live : AccessToken → Bool
live t = not (is_some t.revoked_at)

abbrev pub revoked : Time → Time → AccessToken → AccessToken
revoked now at t = record t { revoked_at = some now }

-- `session_id IN (SELECT id FROM sessions WHERE ...)`
abbrev pub in_session : (Session → Bool) → List Session → Uuid → Bool
in_session p rows id = any (λ s. s.id == id && p s) rows

module _ (env : Env) where
  unfoldable pub create_token : (Uuid → Time → AccessToken) → M AccessToken
  create_token mk = create env access_tokens clash mk

  -- `Preload("Session")` and `Preload("Client")` for the row that the query found
  unfoldable pub preload : Option AccessToken → M (Option AccessToken)
  preload none = pure none
  preload (some t) = do
    find env clients (λ c. c.id == t.client_id)
    find env sessions (λ s. s.id == t.session_id)
    pure (some t)

  unfoldable pub find_by_jti : String → M (Option AccessToken)
  unfolding preload
  find_by_jti jti = do t ← first env access_tokens (λ t. str_eq t.jti jti); preload t

  unfoldable pub revoke_where : (AccessToken → Bool) → M ℕ
  revoke_where p = do
    now ← time_now env
    updates env access_tokens (λ t. p t && live t) (revoked now)

  unfoldable pub revoke : Uuid → M ℕ
  unfolding revoke_where
  revoke id = revoke_where (λ t. t.id == id)

  unfoldable pub revoke_by_session_id : Uuid → M ℕ
  unfolding revoke_where
  revoke_by_session_id session_id = revoke_where (λ t. t.session_id == session_id)

  unfoldable pub revoke_all : M ℕ
  unfolding revoke_where
  revoke_all = revoke_where (λ t. true)

  -- the subquery reads the sessions in the same statement
  unfoldable pub revoke_by_tenant_id : Uuid → M ℕ
  unfolding revoke_where
  revoke_by_tenant_id tenant_id w =
      revoke_where (λ t. in_session (λ s. s.tenant_id == tenant_id) w.sessions t.session_id) w

  unfoldable pub revoke_by_user_id : Uuid → M ℕ
  unfolding revoke_where
  revoke_by_user_id user_id w =
      revoke_where (λ t. in_session (λ s. s.user_id == user_id) w.sessions t.session_id) w
