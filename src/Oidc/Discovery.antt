-- ===== src/Oidc/Discovery.antt =====
-- discovery.go and jwks.go: what the provider says of itself.
use Prim.Native.String.{◌++◌ as join}
use oidc_demo.Base.{String, List, [], ◌∷◌}
use oidc_demo.World.{Env, World, Exec, or_raise, pure, ◌>>=◌, ◌>>◌}
use oidc_demo.Http.{
  Request, Response, Value, text, texts, json, error, object, keys, with_header, or_server_error,
  respond,
}
use oidc_demo.Jwt.Keys.{get_jwk_set}
use oidc_demo.Store.Tenants
use oidc_demo.Oidc.Config.{Config}

abbrev pub not_found : Response
not_found = json 404 (error "not_found" "")

unfoldable pub metadata : String → String → List (String × Value)
metadata base issuer =
    ("issuer", text issuer)
    ∷ ("authorization_endpoint", text (join issuer "/authorize"))
    ∷ ("token_endpoint", text (join issuer "/token"))
    ∷ ("userinfo_endpoint", text (join issuer "/userinfo"))
    ∷ ("jwks_uri", text (join base "/jwks"))
    ∷ ("revocation_endpoint", text (join issuer "/revoke"))
    ∷ ("response_types_supported", texts ("code" ∷ []))
    ∷ ("grant_types_supported", texts ("authorization_code" ∷ "refresh_token" ∷ []))
    ∷ ("subject_types_supported", texts ("public" ∷ []))
    ∷ ("id_token_signing_alg_values_supported", texts ("RS256" ∷ []))
    ∷ ("scopes_supported", texts ("openid" ∷ "profile" ∷ "email" ∷ "offline_access" ∷ []))
    ∷ (
      "token_endpoint_auth_methods_supported",
      texts ("client_secret_basic" ∷ "client_secret_post" ∷ []),
    )
    ∷ ("code_challenge_methods_supported", texts ("S256" ∷ []))
    ∷ (
      "claims_supported",
      texts (
          "sub" ∷ "iss" ∷ "aud" ∷ "exp" ∷ "iat" ∷ "auth_time" ∷ "nonce" ∷ "name" ∷ "email"
          ∷ "email_verified" ∷ []),
    )
    ∷ []

module _ (env : Env) (config : Config) where
  unfoldable pub discover : Request → Exec Response Response
  discover r = do
    found ← or_server_error (Tenants.find_by_code env r.tenant_code)
    or_raise found not_found
    pure (
        with_header "Cache-Control" "public, max-age=86400" (
          json 200 (
            object (
              metadata config.issuer_base_url
                (join config.issuer_base_url (join "/" r.tenant_code))))))

  unfoldable pub handle : Request → World → Response × World
  handle r = respond (discover r)

  -- jwks.go
  unfoldable pub jwks : Exec Response Response
  jwks = do
    set ← or_server_error (get_jwk_set env config.enc_key)
    pure (with_header "Cache-Control" "public, max-age=3600" (json 200 (keys set)))

  unfoldable pub handle_jwks : World → Response × World
  handle_jwks = respond jwks
