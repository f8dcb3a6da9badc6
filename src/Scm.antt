-- ===== src/Scm.antt =====
-- internal/notifier/scm: what the providers of source control share.
pub mod Limits
pub mod Comments
pub mod Labels
pub mod Upsert
