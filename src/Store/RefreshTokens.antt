-- ===== src/Store/RefreshTokens.antt =====
-- refresh_token_repository.go
use oidc_demo.Base.{
  ℕ, String, Bool, true, Option, none, some, List, [], ◌∷◌, ◌&&◌, ◌||◌, ◌==◌, not, is_some, str_eq,
}
use oidc_demo.Model.{Uuid, Time, Session, AccessToken, RefreshToken}
use oidc_demo.World.{
  Env, M, refresh_tokens, access_tokens, sessions, clients, first, find, updates, create, time_now,
  ◌>>=◌, ◌>>◌, pure,
}
use oidc_demo.Store.AuthCodes.{session_or_zero}
use oidc_demo.Store.AccessTokens.{in_session}

abbrev pub clash : RefreshToken → RefreshToken → Bool
clash a b = a.id == b.id || str_eq a.token_hash b.token_hash

abbrev pub live : RefreshToken → Bool
live t = not (is_some t.revoked_at)

abbrev pub revoked : Time → Time → RefreshToken → RefreshToken
revoked now at t = record t { revoked_at = some now }

abbrev pub zero_access_token : AccessToken
zero_access_token = record {
  id = 0;
  jti = "";
  session_id = 0;
  client_id = 0;
  scope = "";
  expires_at = 0;
  revoked_at = none;
}

abbrev pub access_token_or_zero : List AccessToken → AccessToken
access_token_or_zero [] = zero_access_token
access_token_or_zero (t ∷ rest) = t

-- A refresh token with its preloaded session and access token.
pub record Loaded : Type 0 where
  pub token : RefreshToken
  pub session : Session
  pub access_token : AccessToken

module _ (env : Env) where
  unfoldable pub create_token : (Uuid → Time → RefreshToken) → M RefreshToken
  create_token mk = create env refresh_tokens clash mk

  -- `Preload("Session")`, `Preload("AccessToken")` and `Preload("AccessToken.Client")`
  unfoldable pub preload : Option RefreshToken → M (Option Loaded)
  preload none = pure none
  preload (some t) = do
    tokens ← find env access_tokens (λ a. a.id == t.access_token_id)
    find env clients (λ c. c.id == (access_token_or_zero tokens).client_id)
    found ← find env sessions (λ s. s.id == t.session_id)
    pure (
        some (record {
          token = t;
          session = session_or_zero found;
          access_token = access_token_or_zero tokens;
        }))

  unfoldable pub find_by_token_hash : String → M (Option Loaded)
  unfolding preload
  find_by_token_hash hash = do
    t ← first env refresh_tokens (λ t. str_eq t.token_hash hash)
    preload t

  unfoldable pub revoke_where : (RefreshToken → Bool) → M ℕ
  revoke_where p = do
    now ← time_now env
    updates env refresh_tokens (λ t. p t && live t) (revoked now)

  unfoldable pub revoke : Uuid → M ℕ
  unfolding revoke_where
  revoke id = revoke_where (λ t. t.id == id)

  unfoldable pub revoke_by_session_id : Uuid → M ℕ
  unfolding revoke_where
  revoke_by_session_id session_id = revoke_where (λ t. t.session_id == session_id)

  unfoldable pub mark_reuse_detected : Uuid → M ℕ
  mark_reuse_detected id = do
    now ← time_now env
    updates env refresh_tokens (λ t. t.id == id) (λ at t. record t { reuse_detected_at = some now })

  unfoldable pub revoke_all : M ℕ
  unfolding revoke_where
  revoke_all = revoke_where (λ t. true)

  -- the subquery reads the sessions in the same statement
  unfoldable pub revoke_by_tenant_id : Uuid → M ℕ
  unfolding revoke_where
  revoke_by_tenant_id tenant_id w =
      revoke_where (λ t. in_session (λ s. s.tenant_id == tenant_id) w.sessions t.session_id) w

  unfoldable pub revoke_by_user_id : Uuid → M ℕ
  unfolding revoke_where
  revoke_by_user_id user_id w =
      revoke_where (λ t. in_session (λ s. s.user_id == user_id) w.sessions t.session_id) w
