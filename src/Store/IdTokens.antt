-- ===== src/Store/IdTokens.antt =====
-- id_token_repository.go
use oidc_demo.Base.{Bool, ◌||◌, ◌==◌, str_eq}
use oidc_demo.Model.{Uuid, Time, IdToken}
use oidc_demo.World.{Env, M, id_tokens, create}

abbrev clash : IdToken → IdToken → Bool
clash a b = a.id == b.id || str_eq a.jti b.jti

module _ (env : Env) where
  unfoldable pub create_token : (Uuid → Time → IdToken) → M IdToken
  create_token mk = create env id_tokens clash mk
