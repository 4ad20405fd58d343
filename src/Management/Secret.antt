-- ===== src/Management/Secret.antt =====
-- secret.go: the random identifiers and secrets of clients.
use oidc_demo.Base.{String}
use oidc_demo.World.{Env, M, rand_read, pure, ◌>>=◌}

module _ (env : Env) where
  unfoldable pub generate_client_id : M String
  generate_client_id = do b ← rand_read env 16; pure (env.hex_encode b)

  unfoldable pub generate_client_secret : M String
  generate_client_secret = do b ← rand_read env 32; pure (env.hex_encode b)
