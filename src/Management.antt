-- ===== src/Management.antt =====
-- op/backend/internal/management: the administrators' API. Their sessions are checked before it.
pub mod Errors
pub mod Incident
pub mod Key
pub mod Progress
pub mod Ended
pub mod Response
pub mod Secret
pub mod AdminService
pub mod AdminAuth
pub mod RedirectUri
pub mod TenantCode
pub mod Tenant
pub mod AdminProgress
pub mod Client
pub mod Admission
pub mod Bounds
pub mod NewTenant
pub mod Addresses
pub mod Changes
pub mod CheckedClient
pub mod NewClient
pub mod CreatedClient
pub mod Pages
pub mod TakenFields
pub mod ClientFields
pub mod UpdatedClient
pub mod UpdatedTenant
