-- ===== src/Progress/Tokens.antt =====
-- The repositories of access tokens and of refresh tokens.
use oidc_demo.Base.{
  String, Bool, true, Option, some, none, List, ◌≡◌, refl, marked, marked-Insert, is_some, str_eq,
  ◌==◌,
}
use oidc_demo.Gorm.{GormLaws}
use oidc_demo.Model.{Uuid, Time, AccessToken, RefreshToken}
use oidc_demo.World.{World, Env, access_tokens, refresh_tokens, sessions, clients, advance}
use oidc_demo.Progress.Order.{Later, access_revoked, refresh_revoked}
use oidc_demo.Progress.Rules.{Grows, Grows-bind, Grows-time_now, Grows-pure}
use oidc_demo.Progress.Statements.{Grows-updates, Grows-create, Grows-first, Grows-find}
use oidc_demo.Progress.Rows.{marked-change, clash_of_key}
use oidc_demo.Store.AccessTokens
use oidc_demo.Store.RefreshTokens

module _ (env : Env) where
  access-Later :
      (w : World) (rows : List AccessToken)
      → ((jti : String)
          → access_revoked jti w ≡ true
          → marked (λ t. str_eq t.jti jti) (λ t. is_some t.revoked_at) rows ≡ true)
      → Later w (access_tokens.set rows (advance env w))
  access-Later w rows h = record {
    codes = λ c h. h;
    access = h;
    refresh = λ c h. h;
    sessions = λ c h. h;
    admins = λ c h. h;
  }

  refresh-Later :
      (w : World) (rows : List RefreshToken)
      → ((hash : String)
          → refresh_revoked hash w ≡ true
          → marked (λ t. str_eq t.token_hash hash) (λ t. is_some t.revoked_at) rows ≡ true)
      → Later w (refresh_tokens.set rows (advance env w))
  refresh-Later w rows h = record {
    codes = λ c h. h;
    access = λ c h. h;
    refresh = h;
    sessions = λ c h. h;
    admins = λ c h. h;
  }

  module _ (laws : GormLaws env.gorm) where
    pub Grows-create_access :
        (mk : Uuid → Time → AccessToken) → Grows (AccessTokens.create_token env mk)
    unfolding AccessTokens.create_token
    Grows-create_access mk =
        Grows-create env access_tokens laws AccessTokens.clash mk λ w id at rows fresh i.
          access-Later w rows λ jti.
            marked-Insert (λ t. str_eq t.jti jti) (λ t. is_some t.revoked_at) AccessTokens.clash
              (λ s on os. clash_of_key ((mk id at).id == s.id) (mk id at).jti s.jti jti on os) fresh
              i

    pub Grows-create_refresh :
        (mk : Uuid → Time → RefreshToken) → Grows (RefreshTokens.create_token env mk)
    unfolding RefreshTokens.create_token
    Grows-create_refresh mk =
        Grows-create env refresh_tokens laws RefreshTokens.clash mk λ w id at rows fresh i.
          refresh-Later w rows λ hash.
            marked-Insert (λ t. str_eq t.token_hash hash) (λ t. is_some t.revoked_at)
              RefreshTokens.clash
              (λ s on os.
                clash_of_key ((mk id at).id == s.id) (mk id at).token_hash s.token_hash hash on os)
              fresh i

    pub Grows-revoke_access : (p : AccessToken → Bool) → Grows (AccessTokens.revoke_where env p)
    unfolding AccessTokens.revoke_where
    Grows-revoke_access p = Grows-bind (Grows-time_now env) λ now.
        Grows-updates env access_tokens laws _ (AccessTokens.revoked now) λ w at.
          access-Later w _ λ jti.
            marked-change (λ t. str_eq t.jti jti) (λ t. is_some t.revoked_at) _
              (AccessTokens.revoked now at) w.access_tokens (λ r. refl) (λ r h. refl)

    pub Grows-revoke_refresh : (p : RefreshToken → Bool) → Grows (RefreshTokens.revoke_where env p)
    unfolding RefreshTokens.revoke_where
    Grows-revoke_refresh p = Grows-bind (Grows-time_now env) λ now.
        Grows-updates env refresh_tokens laws _ (RefreshTokens.revoked now) λ w at.
          refresh-Later w _ λ hash.
            marked-change (λ t. str_eq t.token_hash hash) (λ t. is_some t.revoked_at) _
              (RefreshTokens.revoked now at) w.refresh_tokens (λ r. refl) (λ r h. refl)

    -- The audit mark leaves the revocation as it was.
    pub Grows-mark_reuse_detected : (id : Uuid) → Grows (RefreshTokens.mark_reuse_detected env id)
    unfolding RefreshTokens.mark_reuse_detected
    Grows-mark_reuse_detected id = Grows-bind (Grows-time_now env) λ now.
        Grows-updates env refresh_tokens laws (λ t. t.id == id)
          (λ at t. record t { reuse_detected_at = some now })
          λ w at. refresh-Later w _ λ hash.
            marked-change (λ t. str_eq t.token_hash hash) (λ t. is_some t.revoked_at)
              (λ t. t.id == id) (λ t. record t { reuse_detected_at = some now }) w.refresh_tokens
              (λ r. refl) (λ r h. h)

  Grows-preload_access : (o : Option AccessToken) → Grows (AccessTokens.preload env o)
  unfolding AccessTokens.preload
  Grows-preload_access none = Grows-pure none
  Grows-preload_access (some t) =
      Grows-bind (Grows-find env clients _)
        λ c. Grows-bind (Grows-find env sessions _) λ s. Grows-pure _

  pub Grows-find_by_jti : (jti : String) → Grows (AccessTokens.find_by_jti env jti)
  unfolding AccessTokens.find_by_jti
  Grows-find_by_jti jti = Grows-bind (Grows-first env access_tokens _) Grows-preload_access

  Grows-preload_refresh : (o : Option RefreshToken) → Grows (RefreshTokens.preload env o)
  unfolding RefreshTokens.preload
  Grows-preload_refresh none = Grows-pure none
  Grows-preload_refresh (some t) = Grows-bind (Grows-find env access_tokens _) λ a.
      Grows-bind (Grows-find env clients _)
        λ c. Grows-bind (Grows-find env sessions _) λ s. Grows-pure _

  pub Grows-find_by_token_hash : (hash : String) → Grows (RefreshTokens.find_by_token_hash env hash)
  unfolding RefreshTokens.find_by_token_hash
  Grows-find_by_token_hash hash =
      Grows-bind (Grows-first env refresh_tokens _) Grows-preload_refresh

pub ruleset tokens_rules = (
  Grows-create_access, Grows-create_refresh, Grows-revoke_access, Grows-revoke_refresh,
  Grows-mark_reuse_detected, Grows-find_by_jti, Grows-find_by_token_hash,
)
