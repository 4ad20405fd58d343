-- ===== src/Management/Incident.antt =====
-- incident.go: the revocation of all tokens and sessions, those of a tenant, or those of a user.
use oidc_demo.Base.{ℕ}
use oidc_demo.World.{Env, M, Exec, or_raise, pure, ◌>>=◌}
use oidc_demo.Http.{Request, text_field, Response, json, revoked}
use oidc_demo.Management.Errors.{bad_request, or_server_error}
use oidc_demo.Store.Sessions
use oidc_demo.Store.AccessTokens
use oidc_demo.Store.RefreshTokens

-- The three writes, in this order; a failure leaves those before it.
unfoldable pub revoke_each : M ℕ → M ℕ → M ℕ → Exec Response Response
revoke_each sessions access_tokens refresh_tokens = do
  s ← or_server_error sessions
  a ← or_server_error access_tokens
  r ← or_server_error refresh_tokens
  pure (json 200 (revoked s a r))

module _ (env : Env) where
  unfoldable pub revoke_all : Exec Response Response
  revoke_all =
      revoke_each (Sessions.revoke_all env) (AccessTokens.revoke_all env)
        (RefreshTokens.revoke_all env)

  unfoldable pub revoke_tenant : Request → Exec Response Response
  revoke_tenant r = do
    fields ← or_raise r.bind (bad_request "invalid request body")
    tenant_id ←
        or_raise (env.uuid_parse (text_field fields "tenant_id"))
          (bad_request "invalid tenant_id format")
    revoke_each (Sessions.revoke_by_tenant_id env tenant_id)
        (AccessTokens.revoke_by_tenant_id env tenant_id)
        (RefreshTokens.revoke_by_tenant_id env tenant_id)

  unfoldable pub revoke_user : Request → Exec Response Response
  revoke_user r = do
    fields ← or_raise r.bind (bad_request "invalid request body")
    user_id ←
        or_raise (env.uuid_parse (text_field fields "user_id"))
          (bad_request "invalid user_id format")
    revoke_each (Sessions.revoke_by_user_id env user_id)
        (AccessTokens.revoke_by_user_id env user_id) (RefreshTokens.revoke_by_user_id env user_id)
