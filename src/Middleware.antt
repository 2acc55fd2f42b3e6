-- ===== src/Middleware.antt =====
-- internal/interfaces/http/middleware: the request, and what stands in front of the handlers.
pub mod Request
pub mod RateLimit
pub mod Csrf
pub mod RequestId
pub mod SecurityHeaders
