-- ===== src/Briefings.antt =====
-- internal/briefings.
pub mod TimeRule
