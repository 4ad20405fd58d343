-- ===== src/Lib.antt =====
-- The OpenID Connect provider of op/backend (Go): the authorization, token, userinfo, revocation,
-- discovery and key set endpoints, the login, and the administrators' API for tenants, clients,
-- redirect URIs, signing keys and incidents.
--
-- A request reaches a handler, which calls services and repositories; these run statements on a
-- PostgreSQL database through gorm. A handler is modelled as an action on a `World`, the tables of the
-- database with a counter of outside calls, that ends with a response. What is written before an
-- error stays written: the only transaction is the one in which gorm creates a client with its addresses.
--
-- What stands where:
--   Base      Boolean tests, tables as lists, numbers, and texts (`containsScope` of oidc/authorize.go)
--   Model     op/backend/internal/model: a record for each struct; Token and Admin are its children
--   Gorm, Env what the repository does not hold: gorm with its laws, the clock, random numbers,
--             cryptography, JWT, URLs and number formats. Each is a parameter; a call that may answer
--             differently each time takes the number of the call, and a statement may fail at any time
--   World     the tables, and actions with errors: `>>=` for the sequence, `raise_if` for an early
--             return, `attempt` and `ignore` for an error that is swallowed, `transaction`
--   Store     op/backend/internal/store: a module for each repository
--   Crypto    op/backend/internal/crypto: aes.go and pkce.go; Crypto/Argon2id is argon2id.go
--   Config    op/backend/config: what is read from the environment
--   Jwt       op/backend/internal/jwt: Keys is key_service.go, Tokens is token_service.go
--   Auth      op/backend/internal/auth: Service, Login and Me
--   Http      requests and responses, as far as the handlers use echo
--   Oidc      op/backend/internal/oidc: Client, Issue, AuthCode, Refresh and Token are token*.go;
--             Authorize, Revoke and UserInfo are the files of these names; Discovery is discovery.go
--             and jwks.go. Checks, CodeGrant, RefreshChecks, RefreshGrant, Reuse, Redirects and
--             RedirectSafety hold the proofs
--   Management op/backend/internal/management: AdminService is auth_service.go, AdminAuth is
--             auth_handler.go and middleware.go; Tenant, TenantCode, Client, RedirectUri, Incident, Key,
--             Response, Secret and Errors are the files of these names. The other children hold the proofs
--   Server    op/backend/cmd/server/main.go: Startup is what comes before the first request, `serve`
--             answers a request at a route, and `Reach` is the relation of the states that sequences
--             of requests lead to. The other children hold the results on whole requests
--   Outcome, Answers, Quiet, Progress, Reliable  rules to reason on actions: what a success did, what
--             holds of each error, what reads only, what takes back no use of a code and no revocation,
--             and what runs to its end where no statement fails
--   Tests     a database in memory that obeys the laws, an environment, and an example of each result
--
-- Definitions carry the source's names: handleAuthCodeGrantLogic is `handle_auth_code_grant_logic`. A
-- long Go function is cut into the steps that its comments name. UUIDs and times are natural numbers,
-- times in nanoseconds. There is no fuel: no modelled function loops but over a list or a text.
--
-- Where main.go hands a function to a service (the verification of passwords, the hashes), the model
-- of the service calls the model of that function.
--
-- Requests are answered one after another: requests that interleave are not modelled, nor are CORS,
-- logging, the migrations, the seed, and the programs op/frontend and rp.
pub mod Base
pub mod Model
pub mod Gorm
pub mod Env
pub mod Config
pub mod World
pub mod Store
pub mod Crypto
pub mod Jwt
pub mod Progress
pub mod Http
pub mod Oidc
pub mod Auth
pub mod Management
pub mod Outcome
pub mod Reliable
pub mod Quiet
pub mod Answers
pub mod Server
mod Tests
