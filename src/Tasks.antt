-- ===== src/Tasks.antt =====
-- internal/tasks.
pub mod Priority
pub mod Recurrence
