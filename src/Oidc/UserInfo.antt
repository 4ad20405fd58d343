-- ===== src/Oidc/UserInfo.antt =====
-- userinfo.go: GET /{tenant_code}/userinfo.
use Prim.Native.Nat.{◌/◌}
use oidc_demo.Base.{
  String, Option, none, some, List, [], ◌∷◌, ◌++◌, is_some, split, contains, strip_prefix,
  if◌then◌else◌,
}
use oidc_demo.Model.{User, AccessToken}
use oidc_demo.Model.Time.{second}
use oidc_demo.World.{Env, World, Exec, attempt, map_err, or_raise, raise_if, pure, ◌>>=◌, ◌>>◌}
use oidc_demo.Http.{
  Request, Response, Value, text, number, flag, json, error, object, with_header, server_error,
  respond,
}
use oidc_demo.Jwt.Tokens.{validate_access_token}
use oidc_demo.Store.Users
use oidc_demo.Store.AccessTokens
use oidc_demo.Oidc.Config.{Config}
use oidc_demo.Oidc.Revoke.{join_none}

abbrev pub challenge : String → Response
challenge value = with_header "WWW-Authenticate" value (json 401 (error "invalid_token" ""))

abbrev pub invalid_token : Response
invalid_token = challenge "Bearer error=\"invalid_token\""

abbrev name_claim : Option String → List (String × Value)
name_claim none = []
name_claim (some name) = ("name", text name) ∷ []

module _ (env : Env) where
  -- The claims of a user under the scopes of the token.
  unfoldable pub claims : User → List String → List (String × Value)
  claims user scopes =
      ("sub", text (env.uuid_string user.id))
      ∷ ((if contains scopes "profile"
            then name_claim user.name ++ (("updated_at", number (user.updated_at / second)) ∷ [])
            else [])
          ++ (if contains scopes "email"
              then ("email", text user.email) ∷ ("email_verified", flag user.email_verified) ∷ []
              else []))

  -- The row of the token, which is neither missing nor revoked.
  unfoldable pub find_live : String → Exec Response AccessToken
  find_live jti = do
    found ← attempt (AccessTokens.find_by_jti env jti)
    token ← or_raise (join_none found) invalid_token
    raise_if (is_some token.revoked_at) invalid_token
    pure token

  module _ (config : Config) where
    unfoldable pub user_info : Request → Exec Response Response
    user_info r = do
      token ← or_raise (strip_prefix "Bearer " r.authorization) (challenge "Bearer")
      result ← map_err (λ e. invalid_token) (validate_access_token env config.enc_key token)
      find_live result.jti
      found ← attempt (Users.find_by_id env result.subject)
      user ← or_raise (join_none found) server_error
      pure (json 200 (object (claims user (split 32 result.scope))))

    unfoldable pub handle : Request → World → Response × World
    handle r = respond (user_info r)
