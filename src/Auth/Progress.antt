-- ===== src/Auth/Progress.antt =====
-- No login takes back the use of a code or a revocation.
use oidc_demo.Gorm.{GormLaws}
use oidc_demo.Env.{Env}
use oidc_demo.Model.{Uuid, LoginInput}
use oidc_demo.Http.{Request}
use oidc_demo.Progress.{Grows, grows_rules, codes_rules, others_rules}
use oidc_demo.Oidc.Config.{Config}
use oidc_demo.Auth.Service.{check_credentials, login, validate_session}
use oidc_demo.Auth.Login.{log_in}
use oidc_demo.Auth.Me.{me}

module _ (env : Env) where
  Grows-check_credentials : (input : LoginInput) → Grows (check_credentials env input)
  unfolding check_credentials
  Grows-check_credentials input = search (grows_rules, others_rules) depth 14

  pub Grows-validate_session : (id : Uuid) → Grows (validate_session env id)
  unfolding validate_session
  Grows-validate_session id = search (grows_rules, codes_rules) depth 14

  pub Grows-me : (r : Request) → Grows (me env r)
  unfolding me
  Grows-me r = search (grows_rules, others_rules, Grows-validate_session) depth 14

  module _ (laws : GormLaws env.gorm) where
    Grows-login : (input : LoginInput) → Grows (login env input)
    unfolding login
    Grows-login input =
        search (grows_rules, codes_rules, others_rules, Grows-check_credentials) depth 14

    pub Grows-log_in : (config : Config) (r : Request) → Grows (log_in env config r)
    unfolding log_in
    Grows-log_in config r = search (grows_rules, Grows-login) depth 14
