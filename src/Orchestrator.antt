-- ===== src/Orchestrator.antt =====
-- The per-user service orchestrator (internal/orchestrator).
pub mod Cron
pub mod Registry
pub mod Supervisor
