-- ===== src/Oidc.antt =====
-- op/backend/internal/oidc: the handlers of the OIDC endpoints.
pub mod Config
pub mod Client
pub mod Issue
pub mod AuthCode
pub mod Refresh
pub mod Token
pub mod Revoke
pub mod UserInfo
pub mod Discovery
pub mod Authorize
pub mod Checks
pub mod Progress
pub mod CodeGrant
pub mod RefreshChecks
pub mod RefreshGrant
pub mod Handlers
pub mod Reuse
pub mod Redirects
pub mod RedirectSafety
pub mod IssuedCode
