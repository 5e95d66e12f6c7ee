-- ===== src/Ai.antt =====
-- The AI subsystem (internal/ai).
pub mod PlanConfig
pub mod Pipeline
pub mod Queue
pub mod Router
pub mod Workers
