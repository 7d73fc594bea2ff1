-- ===== src/Openbao.antt =====
-- pkg/secrets/openbao: the client of the secret store.
pub mod Tokens
pub mod Renewal
pub mod Secrets
pub mod Replacement
pub mod Identity
mod Tests
