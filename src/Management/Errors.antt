-- ===== src/Management/Errors.antt =====
-- errors.go
use oidc_demo.Base.{ℕ, String}
use oidc_demo.World.{Exec, M, map_err}
use oidc_demo.Http.{Response, json, error}

unfoldable pub error_json : ℕ → String → String → Response
error_json status code description = json status (error code description)

unfoldable pub bad_request : String → Response
unfolding error_json
bad_request = error_json 400 "bad_request"

unfoldable pub not_found : String → Response
unfolding error_json
not_found = error_json 404 "not_found"

unfoldable pub conflict : String → Response
unfolding error_json
conflict = error_json 409 "conflict"

unfoldable pub server_error : Response
unfolding error_json
server_error = error_json 500 "server_error" "internal server error"

abbrev pub or_server_error : {A : Type 0} → M A → Exec Response A
or_server_error = map_err (λ e. server_error)
