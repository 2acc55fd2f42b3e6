-- ===== src/Security.antt =====
-- internal/security: the encryption of personal data.
pub mod Crypto
pub mod KeyManager
