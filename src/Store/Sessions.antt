-- ===== src/Store/Sessions.antt =====
-- session_repository.go
use oidc_demo.Base.{ℕ, Bool, true, Option, some, ◌&&◌, ◌==◌, not, is_some}
use oidc_demo.Model.{Uuid, Time, Session}
use oidc_demo.World.{Env, M, sessions, first, updates, create, time_now, ◌>>=◌}

abbrev pub clash : Session → Session → Bool
clash a b = a.id == b.id

-- `revoked_at IS NULL`
abbrev pub live : Session → Bool
live s = not (is_some s.revoked_at)

abbrev pub revoked : Time → Time → Session → Session
revoked now at s = record s { revoked_at = some now; updated_at = at }

module _ (env : Env) where
  unfoldable pub create_session : (Uuid → Time → Session) → M Session
  create_session mk = create env sessions clash mk

  unfoldable pub find_by_id : Uuid → M (Option Session)
  find_by_id id = first env sessions (λ s. s.id == id)

  unfoldable pub revoke_where : (Session → Bool) → M ℕ
  revoke_where p = do now ← time_now env; updates env sessions (λ s. p s && live s) (revoked now)

  unfoldable pub revoke : Uuid → M ℕ
  unfolding revoke_where
  revoke id = revoke_where (λ s. s.id == id)

  unfoldable pub revoke_all : M ℕ
  unfolding revoke_where
  revoke_all = revoke_where (λ s. true)

  unfoldable pub revoke_by_tenant_id : Uuid → M ℕ
  unfolding revoke_where
  revoke_by_tenant_id tenant_id = revoke_where (λ s. s.tenant_id == tenant_id)

  unfoldable pub revoke_by_user_id : Uuid → M ℕ
  unfolding revoke_where
  revoke_by_user_id user_id = revoke_where (λ s. s.user_id == user_id)
