-- ===== src/Handlers.antt =====
-- internal/interfaces/http/handlers: the HTTP surface.
pub mod Guard
pub mod Tenant
pub mod Auth
pub mod Oauth
pub mod Passkey
