-- ===== src/Tests/Startup.antt =====
-- The start of the program.
use oidc_demo.Base
use oidc_demo.Base.{
  ℕ, String, true, false, ◌≡◌, ◌≢◌, ◌<◌, ◌≤◌, refl, Option, some, none, [], ◌∷◌, subst, sym, arith,
}
use oidc_demo.Config
use oidc_demo.World as Act
use oidc_demo.World.{World, ok, advance}
use oidc_demo.Http
use oidc_demo.Http.{text, json, object}
use oidc_demo.Jwt.Keys
use oidc_demo.Store.SignKeys
use oidc_demo.Server.Startup
use oidc_demo.Server.Startup.{start_up}
use oidc_demo.Server.Startup.Started.{IsStarted, start_up-IsStarted}
use oidc_demo.Tests.InMemory.{in_memory-GormLaws}
use oidc_demo.Tests.Example.{env, config, start}
use oidc_demo.Tests.Runs.{settings}

starts : start_up env settings start ≡ (ok config, (start_up env settings start).1)
unfolding Startup.start_up Startup.new_key_service Startup.handlers_config Config.load
    Config.trim_right Config.is_secure Base.strip_prefix Keys.ensure_signing_key
    SignKeys.find_active Act.pure Act.raise Act.raise_if Act.or_raise Act.lift Act.ignore
    Act.map_err Act.time_now Act.rand_read Act.new_uuid Act.jwt_parse Act.first Act.find
    Act.first_desc Act.find_desc Act.updates Act.create Act.◌>>=◌ Act.attempt Http.respond Act.save
    Act.find_asc Act.count Act.page_desc Act.delete Act.transaction
starts = refl

start_up-IsStarted_example : IsStarted env settings config (start_up env settings start).1
start_up-IsStarted_example =
    start_up-IsStarted env in_memory-GormLaws settings start config (start_up env settings start).1
      starts
