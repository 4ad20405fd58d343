-- ===== src/Jwt.antt =====
-- op/backend/internal/jwt: the signing keys and the tokens that they sign.
pub mod Keys
pub mod Tokens
pub mod Progress
pub mod Rotation
pub mod Ensured
