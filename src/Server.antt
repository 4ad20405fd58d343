-- ===== src/Server.antt =====
-- cmd/server/main.go: the routes, the server that answers one request after another, and what
-- holds along every sequence of requests.
pub mod Routes
pub mod Reach
pub mod Refusal
pub mod Replay
pub mod Keys
pub mod Redirects
pub mod Incident
pub mod Revocation
pub mod Admin
pub mod NewTenant
pub mod UpdatedTenant
pub mod UpdatedClient
pub mod Logout
pub mod ClientRefusals
pub mod Clients
pub mod Disabled
pub mod Secrets
pub mod NewSecret
pub mod Startup
pub mod Pages
