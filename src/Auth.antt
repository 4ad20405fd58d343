-- ===== src/Auth.antt =====
-- op/backend/internal/auth: the login of a user, and the session that it opens.
pub mod Service
pub mod Login
pub mod Me
pub mod Progress
pub mod Soundness
