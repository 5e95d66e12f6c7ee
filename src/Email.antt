-- ===== src/Email.antt =====
-- internal/email.
pub mod Connections
pub mod Credentials
pub mod Emails
pub mod Subjects
pub mod Sync
pub mod Threads
