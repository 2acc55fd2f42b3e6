-- ===== src/Identity.antt =====
-- internal/core/identity: the domain's services and the ports that they use.
pub mod Hash
pub mod RateLimit
pub mod Otp
pub mod User
pub mod Session
pub mod Token
pub mod Ports
pub mod Oauth
pub mod OauthManager
pub mod Passkey
