-- ===== src/Shared.antt =====
-- internal/shared: what the layers share.
pub mod Http
