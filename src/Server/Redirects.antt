-- ===== src/Server/Redirects.antt =====
-- The redirects of the authorization endpoint, from the request on.
use oidc_demo.Base.{String, List, ◌≡◌, subst}
use oidc_demo.Gorm.{GormLaws}
use oidc_demo.World.{World, Env}
use oidc_demo.Http.{Request, redirect}
use oidc_demo.Answers.{always-respond}
use oidc_demo.Oidc.Config.{Config}
use oidc_demo.Oidc.Authorize
use oidc_demo.Oidc.RedirectSafety.{Goes, IsSafe, always-authorize}
use oidc_demo.Server.Routes.{Route, serve}

module _ (env : Env) (config : Config) (laws : GormLaws env.gorm) where
  -- The authorization endpoint is no open redirector: an address that it redirects to is the login
  -- page, or the redirect_uri of the request, registered for the active client that the request names
  -- and that belongs to the tenant of the path.
  pub authorize-IsSafe :
      (r : Request) (w : World) (uri : String) (params : List (String × String))
      → (serve env config Route.authorize r w).0.body ≡ redirect uri params
      → IsSafe config r w uri
  unfolding serve Authorize.handle
  authorize-IsSafe r w uri params h =
      subst (λ b. Goes (IsSafe config r w) b) h
        (always-respond (always-authorize env config laws r w))
