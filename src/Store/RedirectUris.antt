-- ===== src/Store/RedirectUris.antt =====
-- redirect_uri_repository.go
use oidc_demo.Base.{String, Bool, Option, List, ◌==◌}
use oidc_demo.Model.{Uuid, Time, RedirectUri}
use oidc_demo.World.{Env, M, redirect_uris, first, find_asc, create, delete}

abbrev pub clash : RedirectUri → RedirectUri → Bool
clash a b = a.id == b.id

-- A new row for an address of a client.
abbrev pub new_uri : Uuid → String → Uuid → Time → RedirectUri
new_uri client_db_id uri id at = record {
  id = id;
  client_db_id = client_db_id;
  uri = uri;
  created_at = at;
}

module _ (env : Env) where
  unfoldable pub list_by_client_id : Uuid → M (List RedirectUri)
  list_by_client_id client_db_id =
      find_asc env redirect_uris (λ u. u.created_at) (λ u. u.client_db_id == client_db_id)

  unfoldable pub create_uri : Uuid → String → M RedirectUri
  create_uri client_db_id uri = create env redirect_uris clash (new_uri client_db_id uri)

  unfoldable pub find_by_id : Uuid → M (Option RedirectUri)
  find_by_id id = first env redirect_uris (λ u. u.id == id)

  unfoldable pub delete_uri : Uuid → M Unit
  delete_uri id = delete env redirect_uris (λ u. u.id == id)
