-- ===== src/Adapters.antt =====
-- internal/adapters: implementations of the domain's ports.
pub mod RateLimit
pub mod Audit
pub mod Pool
pub mod Rows
pub mod OtpRepo
pub mod OauthRepo
pub mod UserRepo
pub mod SessionRepo
pub mod CredRepo
pub mod TenantRepo
