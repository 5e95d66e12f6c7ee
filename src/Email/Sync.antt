-- ===== src/Email/Sync.antt =====
-- Email sync (internal/email/sync): the engine, the cursor of an account, and its callers in
-- internal/orchestrator/cron.go. MIME parsing, threading and the mail servers are parameters.
pub mod Cursor
pub mod Messages
pub mod Imap
pub mod Gmail
pub mod Engine
mod Tests
