-- ===== src/Tests/Codes.antt =====
-- The issue of an authorization code, in the environment of the example.
use oidc_demo.Base.{[], ◌∷◌, ◌≡◌, refl}
use oidc_demo.Model.Time
use oidc_demo.World as Act
use oidc_demo.World.{World, ok}
use oidc_demo.Http
use oidc_demo.Http.{Response, json, redirect}
use oidc_demo.Store.AuthCodes
use oidc_demo.Oidc.Authorize
use oidc_demo.Oidc.Authorize.{issue_code}
use oidc_demo.Oidc.IssuedCode.{Issues, issued_code_is_bound}
use oidc_demo.Tests.InMemory.{in_memory-GormLaws}
use oidc_demo.Tests.Example.{env, start, acme, shop}
use oidc_demo.Tests.Runs.{authorize_request}

abbrev code_response : Response
code_response = json 302 (
    redirect "https://shop/cb" (
      ("code", "1414141414141414141414141414141414141414141414141414141414141414")
      ∷ ("state", "xyz")
      ∷ []))

abbrev after_issue : World
after_issue = (issue_code env acme shop 6 authorize_request start).1

code_is_issued :
    issue_code env acme shop 6 authorize_request start ≡ (ok code_response, after_issue)
unfolding Authorize.issue_code AuthCodes.create_code Time.duration Act.pure Act.raise Act.raise_if
    Act.or_raise Act.lift Act.ignore Act.map_err Act.time_now Act.rand_read Act.new_uuid
    Act.jwt_parse Act.first Act.find Act.first_desc Act.find_desc Act.updates Act.create Act.◌>>=◌
    Act.attempt Http.respond
code_is_issued = refl

issued_code_is_bound_example :
    Issues env acme shop 6 authorize_request start code_response after_issue
issued_code_is_bound_example =
    issued_code_is_bound env in_memory-GormLaws acme shop 6 authorize_request start code_response
      after_issue code_is_issued
