-- ===== src/Store/AdminSessions.antt =====
-- admin_session_repository.go
use oidc_demo.Base.{ℕ, Bool, Option, some, ◌==◌}
use oidc_demo.Model.{Uuid, Time, AdminSession}
use oidc_demo.World.{Env, M, admin_sessions, first, updates, create, time_now, ◌>>=◌}

abbrev pub clash : AdminSession → AdminSession → Bool
clash a b = a.id == b.id

abbrev pub revoked : Time → Time → AdminSession → AdminSession
revoked now at s = record s { revoked_at = some now; updated_at = at }

module _ (env : Env) where
  unfoldable pub create_session : (Uuid → Time → AdminSession) → M AdminSession
  create_session mk = create env admin_sessions clash mk

  unfoldable pub find_by_id : Uuid → M (Option AdminSession)
  find_by_id id = first env admin_sessions (λ s. s.id == id)

  -- A session that is revoked already is revoked again.
  unfoldable pub revoke : Uuid → M ℕ
  revoke id = do now ← time_now env; updates env admin_sessions (λ s. s.id == id) (revoked now)
