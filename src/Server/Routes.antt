-- ===== src/Server/Routes.antt =====
-- The routes of main.go. A management route is behind the middleware that asks for the session of an
-- administrator.
use oidc_demo.Base.{[], ◌∷◌}
use oidc_demo.World.{Env, World, Exec}
use oidc_demo.Http.{Request, Response, json, object, text, respond}
use oidc_demo.Oidc.Config.{Config}
use oidc_demo.Oidc.Token
use oidc_demo.Oidc.Revoke
use oidc_demo.Oidc.UserInfo
use oidc_demo.Oidc.Discovery
use oidc_demo.Oidc.Authorize
use oidc_demo.Auth.Login
use oidc_demo.Auth.Me
use oidc_demo.Management.AdminAuth
use oidc_demo.Management.Tenant
use oidc_demo.Management.Client
use oidc_demo.Management.RedirectUri
use oidc_demo.Management.Incident
use oidc_demo.Management.Key

pub data ManagementRoute : Type 0 where
  list_tenants create_tenant get_tenant update_tenant : ManagementRoute
  list_clients create_client get_client update_client delete_client : ManagementRoute
  rotate_secret : ManagementRoute
  list_redirect_uris create_redirect_uri delete_redirect_uri : ManagementRoute
  list_keys rotate_key deactivate_key : ManagementRoute
  revoke_all revoke_tenant revoke_user : ManagementRoute

pub data Route : Type 0 where
  healthz : Route
  jwks discovery authorize token userinfo revoke : Route
  login me : Route
  admin_login admin_me admin_logout : Route
  management : ManagementRoute → Route

unfoldable pub manage : Env → Config → ManagementRoute → Request → Exec Response Response
manage env config list_tenants r = Tenant.handle_list env r
manage env config create_tenant r = Tenant.handle_create env r
manage env config get_tenant r = Tenant.handle_get env r
manage env config update_tenant r = Tenant.handle_update env r
manage env config list_clients r = Client.handle_list env r
manage env config create_client r = Client.handle_create env r
manage env config get_client r = Client.handle_get env r
manage env config update_client r = Client.handle_update env r
manage env config delete_client r = Client.handle_delete env r
manage env config rotate_secret r = Client.handle_rotate_secret env r
manage env config list_redirect_uris r = RedirectUri.handle_list env r
manage env config create_redirect_uri r = RedirectUri.handle_create env r
manage env config delete_redirect_uri r = RedirectUri.handle_delete env r
manage env config list_keys r = Key.list_keys env
manage env config rotate_key r = Key.rotate env config
manage env config deactivate_key r = Key.handle_deactivate env r
manage env config revoke_all r = Incident.revoke_all env
manage env config revoke_tenant r = Incident.revoke_tenant env r
manage env config revoke_user r = Incident.revoke_user env r

unfoldable pub serve : Env → Config → Route → Request → World → Response × World
serve env config healthz r w = (json 200 (object (("status", text "ok") ∷ [])), w)
serve env config jwks r w = Discovery.handle_jwks env config w
serve env config discovery r w = Discovery.handle env config r w
serve env config authorize r w = Authorize.handle env config r w
serve env config token r w = Token.handle env config r w
serve env config userinfo r w = UserInfo.handle env config r w
serve env config revoke r w = Revoke.handle env config r w
serve env config login r w = Login.handle env config r w
serve env config me r w = Me.handle env r w
serve env config admin_login r w = respond (AdminAuth.handle_login env config r) w
serve env config admin_me r w = respond (AdminAuth.handle_me env r) w
serve env config admin_logout r w = respond (AdminAuth.handle_logout env config r) w
serve env config (management m) r w =
    respond (AdminAuth.require_admin env r (manage env config m r)) w

-- The states that the server comes to by answering requests of any kind in any order.
pub data Reach (env : Env) (config : Config) (w : World) : World → Type 0 where
  stay : Reach env config w w
  then :
      {v : World}
      → Reach env config w v
      → (route : Route) (r : Request) → Reach env config w (serve env config route r v).1
