-- ===== src/Cli.antt =====
-- internal/cli: the options of a run, and how a session is put together and taken down.
pub mod Flags
pub mod Session
pub mod Banner
pub mod Tests
