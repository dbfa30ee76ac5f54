-- ===== src/Stt.antt =====
-- internal/stt: what every streaming recognizer needs around its protocol.
pub mod Gate
pub mod Ring
pub mod Anchor
pub mod Transcript
pub mod SourceTime
pub mod Backoff
pub mod Driver
pub mod Connection
pub mod Runs
pub mod Engine
pub mod Mock
pub mod Deepgram
pub mod Speechmatics
mod Tests
mod EngineTests
