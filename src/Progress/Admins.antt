-- ===== src/Progress/Admins.antt =====
-- The repositories of the management API: redirect URIs, lists of tenants and clients, and the
-- administrators.
use oidc_demo.Base.{
  ℕ, String, true, Option, some, none, List, [], ◌∷◌, ◌≡◌, refl, marked, marked-Insert, is_some,
  ◌==◌,
}
use oidc_demo.Gorm.{GormLaws}
use oidc_demo.Model.{Uuid, Time, Client, AdminSession}
use oidc_demo.World.{
  World, Env, tenants, clients, redirect_uris, post_logout_redirect_uris, admin_users,
  admin_sessions, advance,
}
use oidc_demo.Progress.Order.{Later, Later-same, admin_revoked}
use oidc_demo.Progress.Rules.{Grows, Grows-bind, Grows-time_now, Grows-pure, Grows-transaction}
use oidc_demo.Progress.Statements.{
  Grows-updates, Grows-create, Grows-first, Grows-find, Grows-find_asc, Grows-count,
  Grows-page_desc, Grows-delete,
}
use oidc_demo.Progress.Rows.{marked-change, clash_of_id}
use oidc_demo.Store.Tenants
use oidc_demo.Store.Clients
use oidc_demo.Store.RedirectUris
use oidc_demo.Store.PostLogoutRedirectUris
use oidc_demo.Store.AdminUsers
use oidc_demo.Store.AdminSessions

module _ (env : Env) where
  admins-Later :
      (w : World) (rows : List AdminSession)
      → ((id : Uuid)
          → admin_revoked id w ≡ true
          → marked (λ s. s.id == id) (λ s. is_some s.revoked_at) rows ≡ true)
      → Later w (admin_sessions.set rows (advance env w))
  admins-Later w rows h = record {
    codes = λ c h. h;
    access = λ c h. h;
    refresh = λ c h. h;
    sessions = λ c h. h;
    admins = h;
  }

  pub Grows-tenants : (limit offset : ℕ) → Grows (Tenants.list env limit offset)
  unfolding Tenants.list
  Grows-tenants limit offset =
      Grows-bind (Grows-count env tenants _)
        λ n. Grows-bind (Grows-page_desc env tenants _ _ _ _) λ rows. Grows-pure _

  pub Grows-clients_of :
      (id : Uuid) (limit offset : ℕ) → Grows (Clients.list_by_tenant_id env id limit offset)
  unfolding Clients.list_by_tenant_id
  Grows-clients_of id limit offset =
      Grows-bind (Grows-count env clients _)
        λ n. Grows-bind (Grows-page_desc env clients _ _ _ _) λ rows. Grows-pure _

  Grows-preload_relations : (o : Option Client) → Grows (Clients.preload_relations env o)
  unfolding Clients.preload_relations
  Grows-preload_relations none = Grows-pure none
  Grows-preload_relations (some c) =
      Grows-bind (Grows-find env post_logout_redirect_uris _)
        λ posts. Grows-bind (Grows-find env redirect_uris _) λ uris. Grows-pure _

  pub Grows-client_with_relations : (id : Uuid) → Grows (Clients.find_by_id_with_relations env id)
  unfolding Clients.find_by_id_with_relations
  Grows-client_with_relations id = Grows-bind (Grows-first env clients _) Grows-preload_relations

  pub Grows-uris_of : (id : Uuid) → Grows (RedirectUris.list_by_client_id env id)
  unfolding RedirectUris.list_by_client_id
  Grows-uris_of id = Grows-find_asc env redirect_uris _ _

  pub Grows-uri_by_id : (id : Uuid) → Grows (RedirectUris.find_by_id env id)
  unfolding RedirectUris.find_by_id
  Grows-uri_by_id id = Grows-first env redirect_uris _

  pub Grows-admin_by_login_id : (key : String) → Grows (AdminUsers.find_by_login_id env key)
  unfolding AdminUsers.find_by_login_id
  Grows-admin_by_login_id key = Grows-first env admin_users _

  pub Grows-admin_by_id : (id : Uuid) → Grows (AdminUsers.find_by_id env id)
  unfolding AdminUsers.find_by_id
  Grows-admin_by_id id = Grows-first env admin_users _

  pub Grows-find_admin_session : (id : Uuid) → Grows (AdminSessions.find_by_id env id)
  unfolding AdminSessions.find_by_id
  Grows-find_admin_session id = Grows-first env admin_sessions _

  module _ (laws : GormLaws env.gorm) where
    pub Grows-create_uri : (id : Uuid) (uri : String) → Grows (RedirectUris.create_uri env id uri)
    unfolding RedirectUris.create_uri
    Grows-create_uri id uri =
        Grows-create env redirect_uris laws _ _
          λ w id at rows fresh i. Later-same refl refl refl refl refl

    pub Grows-create_post_logout_uri :
        (id : Uuid) (uri : String) → Grows (PostLogoutRedirectUris.create_uri env id uri)
    unfolding PostLogoutRedirectUris.create_uri
    Grows-create_post_logout_uri id uri =
        Grows-create env post_logout_redirect_uris laws _ _
          λ w id at rows fresh i. Later-same refl refl refl refl refl

    pub Grows-delete_uri : (id : Uuid) → Grows (RedirectUris.delete_uri env id)
    unfolding RedirectUris.delete_uri
    Grows-delete_uri id =
        Grows-delete env redirect_uris laws _ λ w. Later-same refl refl refl refl refl

    Grows-create_uris :
        (id : Uuid) (uris : List String) → Grows (Clients.create_redirect_uris env id uris)
    unfolding Clients.create_redirect_uris
    Grows-create_uris id [] = Grows-pure tt
    Grows-create_uris id (uri ∷ uris) =
        Grows-bind (Grows-create_uri id uri) λ _. Grows-create_uris id uris

    Grows-create_post_logout_uris :
        (id : Uuid) (uris : List String)
        → Grows (Clients.create_post_logout_redirect_uris env id uris)
    unfolding Clients.create_post_logout_redirect_uris
    Grows-create_post_logout_uris id [] = Grows-pure tt
    Grows-create_post_logout_uris id (uri ∷ uris) =
        Grows-bind (Grows-create_post_logout_uri id uri) λ _. Grows-create_post_logout_uris id uris

    pub Grows-create_client :
        (mk : Uuid → Time → Client) (uris posts : List String)
        → Grows (Clients.create_client env mk uris posts)
    unfolding Clients.create_client
    Grows-create_client mk uris posts = Grows-transaction (
        Grows-bind
          (Grows-create env clients laws _ _
            λ w id at rows fresh i. Later-same refl refl refl refl refl)
          λ client.
            Grows-bind (Grows-create_uris client.id uris) λ _.
              Grows-bind (Grows-create_post_logout_uris client.id posts) λ _. Grows-pure client)

    pub Grows-update_admin_login :
        (id : Uuid) (t : Time) → Grows (AdminUsers.update_last_login_at env id t)
    unfolding AdminUsers.update_last_login_at
    Grows-update_admin_login id t =
        Grows-updates env admin_users laws _ _ λ w at. Later-same refl refl refl refl refl

    pub Grows-create_admin_session :
        (mk : Uuid → Time → AdminSession) → Grows (AdminSessions.create_session env mk)
    unfolding AdminSessions.create_session
    Grows-create_admin_session mk =
        Grows-create env admin_sessions laws AdminSessions.clash mk λ w id at rows fresh i.
          admins-Later w rows λ key.
            marked-Insert (λ s. s.id == key) (λ s. is_some s.revoked_at) AdminSessions.clash
              (λ s on os. clash_of_id (mk id at).id s.id key on os) fresh i

    pub Grows-revoke_admin_session : (id : Uuid) → Grows (AdminSessions.revoke env id)
    unfolding AdminSessions.revoke
    Grows-revoke_admin_session id = Grows-bind (Grows-time_now env) λ now.
        Grows-updates env admin_sessions laws _ (AdminSessions.revoked now) λ w at.
          admins-Later w _ λ key.
            marked-change (λ s. s.id == key) (λ s. is_some s.revoked_at) _
              (AdminSessions.revoked now at) w.admin_sessions (λ r. refl) (λ r h. refl)

pub ruleset admins_rules = (
  Grows-tenants, Grows-clients_of, Grows-client_with_relations, Grows-uris_of, Grows-uri_by_id,
  Grows-admin_by_login_id, Grows-admin_by_id, Grows-find_admin_session, Grows-create_uri,
  Grows-delete_uri, Grows-create_client, Grows-update_admin_login, Grows-create_admin_session,
  Grows-revoke_admin_session,
)
