-- ===== src/Caption/Writer.antt =====
-- internal/caption/writer.go and internal/caption/audit.go: the session's transcript and its audit
-- stream.
pub mod State
pub mod Sink
pub mod Lines
pub mod Redaction
pub mod Run
pub mod Compact
pub mod Mirror
pub mod Reports
mod Tests
