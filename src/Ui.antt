-- ===== src/Ui.antt =====
-- internal/ui: the terminal and the log lines.
pub mod Terminal
pub mod Status
pub mod Summary
pub mod Logging
pub mod Screen
pub mod Calls
pub mod Contract
pub mod Rows
pub mod Session
mod Tests
