-- ===== src/Auth.antt =====
-- pkg/auth: tokens in jwt.
pub mod Jwt
