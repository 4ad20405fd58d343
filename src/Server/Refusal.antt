-- ===== src/Server/Refusal.antt =====
-- The responses of the token endpoint that are no success.
use oidc_demo.Base.{ℕ, String, ◌≡◌, ◌≢◌, refl, arith}
use oidc_demo.World.{Env, World, Exec, Error, Result, ok, err}
use oidc_demo.Http.{Request, Response, answer, respond}
use oidc_demo.Outcome.{Ensures}
use oidc_demo.Answers.{Answers, answers_rules}
use oidc_demo.Oidc.Config.{Config}
use oidc_demo.Oidc.Token
use oidc_demo.Server.Routes.{Route, serve}
use oidc_demo.Oidc.Token.{
  token_error, auth_code_error, refresh_error, handle_auth_code_grant, handle_refresh_token_grant,
  grant,
}

abbrev pub Refused : Response → Type 0
Refused r = r.status ≢ 200

pub Refused-token_error : (n : ℕ) (code text : String) → n ≢ 200 → Refused (token_error n code text)
unfolding token_error
Refused-token_error n code text h = h

pub Refused-auth_code_error : (e : Error) → Refused (auth_code_error e)
unfolding auth_code_error
Refused-auth_code_error Error.invalid_client h = omega arith
Refused-auth_code_error Error.invalid_grant h = omega arith
Refused-auth_code_error Error.unsupported_grant_type h = omega arith
Refused-auth_code_error Error.invalid_credentials h = omega arith
Refused-auth_code_error Error.session_not_found h = omega arith
Refused-auth_code_error Error.session_expired h = omega arith
Refused-auth_code_error Error.internal h = omega arith
Refused-auth_code_error Error.admin_invalid_credentials h = omega arith
Refused-auth_code_error Error.admin_session_not_found h = omega arith
Refused-auth_code_error Error.admin_session_expired h = omega arith

pub Refused-refresh_error : (e : Error) → Refused (refresh_error e)
unfolding refresh_error
Refused-refresh_error Error.invalid_client h = omega arith
Refused-refresh_error Error.invalid_grant h = omega arith
Refused-refresh_error Error.unsupported_grant_type h = omega arith
Refused-refresh_error Error.invalid_credentials h = omega arith
Refused-refresh_error Error.session_not_found h = omega arith
Refused-refresh_error Error.session_expired h = omega arith
Refused-refresh_error Error.internal h = omega arith
Refused-refresh_error Error.admin_invalid_credentials h = omega arith
Refused-refresh_error Error.admin_session_not_found h = omega arith
Refused-refresh_error Error.admin_session_expired h = omega arith

-- A response with status 200 is the one at the end.
pub finished :
    {m : Exec Response Response} {w : World} {Q : Response → World → Type 0}
    (r : Result Response Response) (v : World)
    → m w ≡ (r, v)
    → Answers m w Refused
    → Ensures m w Q
    → (answer r).status ≡ 200
    → Q (answer r) v
finished (ok a) v run refuses ensures h = ensures.at a v run
finished (err e) v run refuses ensures h = absurd (refuses.at e v run h)

not_401 : ◌≢◌ {A = ℕ} 401 200
not_401 h = omega arith

pub not_400 : ◌≢◌ {A = ℕ} 400 200
not_400 h = omega arith

module _ (env : Env) (config : Config) where
  refuses-code_grant :
      (r : Request) (w : World) → Answers (handle_auth_code_grant env config r) w Refused
  unfolding handle_auth_code_grant
  refuses-code_grant r w =
      search (answers_rules, Refused-auth_code_error, Refused-token_error, not_400, not_401) depth
        14

  refuses-refresh_grant :
      (r : Request) (w : World) → Answers (handle_refresh_token_grant env config r) w Refused
  unfolding handle_refresh_token_grant
  refuses-refresh_grant r w =
      search (answers_rules, Refused-refresh_error, Refused-token_error, not_400, not_401) depth 14

  refuses-grant : (r : Request) (w : World) → Answers (grant env config r) w Refused
  unfolding grant
  refuses-grant r w =
      search
        (answers_rules, refuses-code_grant, refuses-refresh_grant, Refused-token_error, not_400)
        depth 14

  -- What every success of the named grant ensures holds after a response with status 200.
  pub token_success :
      (r : Request) (w : World) {Q : Response → World → Type 0}
      → (serve env config Route.token r w).0.status ≡ 200
      → Ensures (grant env config r) w Q
      → Q (respond (grant env config r) w).0 (serve env config Route.token r w).1
  unfolding serve Token.handle respond
  token_success r w h ensures =
      finished (grant env config r w).0 (grant env config r w).1 refl (refuses-grant r w) ensures h
