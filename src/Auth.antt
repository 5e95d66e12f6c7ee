-- ===== src/Auth.antt =====
-- internal/auth.
pub mod Lockout
