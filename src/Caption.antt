-- ===== src/Caption.antt =====
-- internal/caption: from settled segments to display lines, and to the record on disk.
pub mod Event
pub mod Cutoff
pub mod Hub
pub mod Writer
mod Tests
