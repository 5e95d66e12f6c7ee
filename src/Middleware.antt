-- ===== src/Middleware.antt =====
-- The HTTP middleware (internal/middleware).
pub mod TokenBucket
pub mod AuthWindow
mod Tests
