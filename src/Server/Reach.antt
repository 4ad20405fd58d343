-- ===== src/Server/Reach.antt =====
-- Along every sequence of requests, what is used stays used and what is revoked stays revoked.
use oidc_demo.Base.{String, Bool, true, ◌≡◌}
use oidc_demo.Model.{Uuid}
use oidc_demo.Gorm.{GormLaws}
use oidc_demo.World.{Env, World, Exec}
use oidc_demo.Http.{Request, Response, respond}
use oidc_demo.Progress.{
  code_used, access_revoked, refresh_revoked, session_revoked, admin_revoked, Grows, Later,
  Later-refl, Later-trans,
}
use oidc_demo.Oidc.Config.{Config}
use oidc_demo.Oidc.Handlers.{
  Grows-user_info, Grows-discover, Grows-jwks, Grows-authorize, Grows-grant, Grows-revoke,
}
use oidc_demo.Oidc.Token
use oidc_demo.Oidc.Revoke
use oidc_demo.Oidc.UserInfo
use oidc_demo.Oidc.Discovery
use oidc_demo.Oidc.Authorize
use oidc_demo.Auth.Progress.{Grows-me, Grows-log_in}
use oidc_demo.Auth.Login
use oidc_demo.Auth.Me
use oidc_demo.Management.Progress.{
  Grows-list_keys, Grows-revoke_all, Grows-revoke_tenant, Grows-revoke_user,
  Grows-handle_deactivate, Grows-rotate,
}
use oidc_demo.Management.AdminProgress.{
  Grows-list_tenants, Grows-create_tenant, Grows-get_tenant, Grows-update_tenant,
  Grows-list_clients, Grows-create_client, Grows-get_client, Grows-update_client,
  Grows-delete_client, Grows-rotate_secret, Grows-list_redirect_uris, Grows-create_redirect_uri,
  Grows-delete_redirect_uri, Grows-admin_login, Grows-admin_me, Grows-admin_logout,
  Grows-require_admin,
}
use oidc_demo.Server.Routes.{
  Route, ManagementRoute, list_tenants, create_tenant, get_tenant, update_tenant, list_clients,
  create_client, get_client, update_client, delete_client, rotate_secret, list_redirect_uris,
  create_redirect_uri, delete_redirect_uri, list_keys, rotate_key, deactivate_key, revoke_all,
  revoke_tenant, revoke_user, manage, serve, Reach, stay, then,
}

respond-Later : {m : Exec Response Response} → Grows m → (w : World) → Later w (respond m w).1
unfolding respond
respond-Later g w = g.at w

module _ (env : Env) (config : Config) (laws : GormLaws env.gorm) where
  Grows-manage : (m : ManagementRoute) (r : Request) → Grows (manage env config m r)
  unfolding manage
  Grows-manage list_tenants r = Grows-list_tenants env r
  Grows-manage create_tenant r = Grows-create_tenant env laws r
  Grows-manage get_tenant r = Grows-get_tenant env r
  Grows-manage update_tenant r = Grows-update_tenant env laws r
  Grows-manage list_clients r = Grows-list_clients env r
  Grows-manage create_client r = Grows-create_client env laws r
  Grows-manage get_client r = Grows-get_client env r
  Grows-manage update_client r = Grows-update_client env laws r
  Grows-manage delete_client r = Grows-delete_client env laws r
  Grows-manage rotate_secret r = Grows-rotate_secret env laws r
  Grows-manage list_redirect_uris r = Grows-list_redirect_uris env r
  Grows-manage create_redirect_uri r = Grows-create_redirect_uri env laws r
  Grows-manage delete_redirect_uri r = Grows-delete_redirect_uri env laws r
  Grows-manage list_keys r = Grows-list_keys env
  Grows-manage rotate_key r = Grows-rotate env laws config
  Grows-manage deactivate_key r = Grows-handle_deactivate env laws r
  Grows-manage revoke_all r = Grows-revoke_all env laws
  Grows-manage revoke_tenant r = Grows-revoke_tenant env laws r
  Grows-manage revoke_user r = Grows-revoke_user env laws r

  serve-Later : (route : Route) (r : Request) (w : World) → Later w (serve env config route r w).1
  unfolding serve Discovery.handle_jwks Discovery.handle Authorize.handle Token.handle
      UserInfo.handle Revoke.handle Login.handle Me.handle
  serve-Later Route.healthz r w = Later-refl w
  serve-Later Route.jwks r w = respond-Later (Grows-jwks env config) w
  serve-Later Route.discovery r w = respond-Later (Grows-discover env config r) w
  serve-Later Route.authorize r w = respond-Later (Grows-authorize env laws config r) w
  serve-Later Route.token r w = respond-Later (Grows-grant env laws config r) w
  serve-Later Route.userinfo r w = respond-Later (Grows-user_info env config r) w
  serve-Later Route.revoke r w = respond-Later (Grows-revoke env laws config r) w
  serve-Later Route.login r w = respond-Later (Grows-log_in env laws config r) w
  serve-Later Route.me r w = respond-Later (Grows-me env r) w
  serve-Later Route.admin_login r w = respond-Later (Grows-admin_login env laws config r) w
  serve-Later Route.admin_me r w = respond-Later (Grows-admin_me env r) w
  serve-Later Route.admin_logout r w = respond-Later (Grows-admin_logout env laws config r) w
  serve-Later (Route.management m) r w =
      respond-Later (Grows-require_admin env r (Grows-manage m r)) w

  pub reach-Later : {w v : World} → Reach env config w v → Later w v
  reach-Later {w} stay = Later-refl w
  reach-Later (then {v = u} reach route r) = Later-trans (reach-Later reach) (serve-Later route r u)

-- What a code, a token or a session may carry for good.
pub data Mark : Type 0 where
  code_is_used : String → Mark
  access_is_revoked refresh_is_revoked : String → Mark
  session_is_revoked admin_is_logged_out : Uuid → Mark

unfoldable pub holds : Mark → World → Bool
holds (code_is_used code) w = code_used code w
holds (access_is_revoked jti) w = access_revoked jti w
holds (refresh_is_revoked hash) w = refresh_revoked hash w
holds (session_is_revoked id) w = session_revoked id w
holds (admin_is_logged_out id) w = admin_revoked id w

module _ (env : Env) (config : Config) (laws : GormLaws env.gorm) where
  -- Whatever requests the server answers, from any state: an authorization code that is used stays
  -- used, and an access token, a refresh token, a session or an administrator's session that is revoked
  -- stays revoked.
  pub marks_stay :
      (mark : Mark) (w v : World) → Reach env config w v → holds mark w ≡ true → holds mark v ≡ true
  unfolding holds
  marks_stay (code_is_used code) w v reach = (reach-Later env config laws reach).codes code
  marks_stay (access_is_revoked jti) w v reach = (reach-Later env config laws reach).access jti
  marks_stay (refresh_is_revoked hash) w v reach = (reach-Later env config laws reach).refresh hash
  marks_stay (session_is_revoked id) w v reach = (reach-Later env config laws reach).sessions id
  marks_stay (admin_is_logged_out id) w v reach = (reach-Later env config laws reach).admins id
