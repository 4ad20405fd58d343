-- ===== src/Store/PostLogoutRedirectUris.antt =====
-- post_logout_redirect_uri_repository.go
use oidc_demo.Base.{String, Bool, List, ◌==◌}
use oidc_demo.Model.{Uuid, Time, PostLogoutRedirectUri}
use oidc_demo.World.{Env, M, post_logout_redirect_uris, find_asc, create, delete}

abbrev pub clash : PostLogoutRedirectUri → PostLogoutRedirectUri → Bool
clash a b = a.id == b.id

-- A new row for an address of a client.
abbrev pub new_uri : Uuid → String → Uuid → Time → PostLogoutRedirectUri
new_uri client_db_id uri id at = record {
  id = id;
  client_db_id = client_db_id;
  uri = uri;
  created_at = at;
}

module _ (env : Env) where
  unfoldable pub list_by_client_id : Uuid → M (List PostLogoutRedirectUri)
  list_by_client_id client_db_id =
      find_asc env post_logout_redirect_uris (λ u. u.created_at)
        (λ u. u.client_db_id == client_db_id)

  unfoldable pub create_uri : Uuid → String → M PostLogoutRedirectUri
  create_uri client_db_id uri =
      create env post_logout_redirect_uris clash (new_uri client_db_id uri)

  unfoldable pub delete_uri : Uuid → M Unit
  delete_uri id = delete env post_logout_redirect_uris (λ u. u.id == id)
