-- ===== src/Store/Clients.antt =====
-- client_repository.go. The redirect URIs of a client are rows of their own table.
use oidc_demo.Base.{ℕ, String, Bool, true, Option, none, some, List, [], ◌∷◌, ◌||◌, ◌==◌, str_eq}
use oidc_demo.Model.{Uuid, Time, Client, RedirectUri, PostLogoutRedirectUri}
use oidc_demo.World.{
  Env, M, clients, redirect_uris, post_logout_redirect_uris, first, find, count, page_desc, create,
  updates, save, transaction, ◌>>=◌, ◌>>◌, pure,
}
use oidc_demo.Store.RedirectUris
use oidc_demo.Store.PostLogoutRedirectUris

abbrev pub clash : Client → Client → Bool
clash a b = a.id == b.id || str_eq a.client_id b.client_id

module _ (env : Env) where
  unfoldable pub find_by_client_id : String → M (Option Client)
  find_by_client_id client_id = first env clients (λ c. str_eq c.client_id client_id)

  -- `Preload("PostLogoutRedirectURIs")` and `Preload("RedirectURIs")` for the client that the query
  -- found. Its caller reads only the redirect URIs.
  unfoldable pub preload_redirect_uris : Option Client → M (Option (Client × List RedirectUri))
  preload_redirect_uris none = pure none
  preload_redirect_uris (some c) = do
    posts ← find env post_logout_redirect_uris (λ u. u.client_db_id == c.id)
    uris ← find env redirect_uris (λ u. u.client_db_id == c.id)
    pure (some (c, uris))

  unfoldable pub find_by_client_id_with_redirect_uris :
      String → M (Option (Client × List RedirectUri))
  unfolding preload_redirect_uris
  find_by_client_id_with_redirect_uris client_id = do
    client ← first env clients (λ c. str_eq c.client_id client_id)
    preload_redirect_uris client

  unfoldable pub find_by_id : Uuid → M (Option Client)
  find_by_id id = first env clients (λ c. c.id == id)

  unfoldable pub list_by_tenant_id : Uuid → ℕ → ℕ → M (List Client × ℕ)
  list_by_tenant_id tenant_id limit offset = do
    total ← count env clients (λ c. c.tenant_id == tenant_id)
    rows ← page_desc env clients (λ c. c.created_at) (λ c. c.tenant_id == tenant_id) limit offset
    pure (rows, total)

  -- `Preload("RedirectURIs")` and `Preload("PostLogoutRedirectURIs")`
  unfoldable pub preload_relations :
      Option Client → M (Option (Client × List RedirectUri × List PostLogoutRedirectUri))
  preload_relations none = pure none
  preload_relations (some c) = do
    posts ← find env post_logout_redirect_uris (λ u. u.client_db_id == c.id)
    uris ← find env redirect_uris (λ u. u.client_db_id == c.id)
    pure (some (c, uris, posts))

  unfoldable pub find_by_id_with_relations :
      Uuid → M (Option (Client × List RedirectUri × List PostLogoutRedirectUri))
  unfolding preload_relations
  find_by_id_with_relations id = do
    client ← first env clients (λ c. c.id == id)
    preload_relations client

  -- The associations of a new client, a row for each address.
  unfoldable pub create_redirect_uris : Uuid → List String → M Unit
  create_redirect_uris id [] = pure tt
  create_redirect_uris id (uri ∷ uris) =
      RedirectUris.create_uri env id uri >> create_redirect_uris id uris

  unfoldable pub create_post_logout_redirect_uris : Uuid → List String → M Unit
  create_post_logout_redirect_uris id [] = pure tt
  create_post_logout_redirect_uris id (uri ∷ uris) =
      PostLogoutRedirectUris.create_uri env id uri >> create_post_logout_redirect_uris id uris

  -- The column `require_pkce` has the tag `default:true`: gorm writes the default in place of a zero
  -- value, so `false` becomes `true`.
  abbrev pub defaulted : Bool → Bool
  defaulted b = true

  -- One transaction for the client and its associations.
  unfoldable pub create_client : (Uuid → Time → Client) → List String → List String → M Client
  create_client mk uris post_logout_uris = transaction (do
    client ←
        create env clients clash
          (λ id at. record (mk id at) { require_pkce = defaulted (mk id at).require_pkce })
    create_redirect_uris client.id uris
    create_post_logout_redirect_uris client.id post_logout_uris
    pure client)

  -- `Save` writes every column of the row with that id, and the client takes the new moment.
  unfoldable pub update : Client → M Client
  update client = do
    at ← save env clients (λ c. c.id == client.id) (λ at. record client { updated_at = at })
    pure (record client { updated_at = at })

  unfoldable pub update_secret_hash : Uuid → String → M ℕ
  update_secret_hash id hash =
      updates env clients (λ c. c.id == id)
        (λ at c. record c { client_secret_hash = hash; updated_at = at })

  unfoldable pub soft_delete : Uuid → M ℕ
  soft_delete id =
      updates env clients (λ c. c.id == id)
        (λ at c. record c { status = "disabled"; updated_at = at })
