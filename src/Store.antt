-- ===== src/Store.antt =====
-- The repositories of op/backend/internal/store, one module each, as actions on the tables.
pub mod Tenants
pub mod Clients
pub mod Users
pub mod Sessions
pub mod AuthCodes
pub mod AccessTokens
pub mod RefreshTokens
pub mod IdTokens
pub mod SignKeys
pub mod RedirectUris
pub mod PostLogoutRedirectUris
pub mod AdminUsers
pub mod AdminSessions
pub mod Effects
