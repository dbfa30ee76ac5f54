-- ===== src/Stt/Mock.antt =====
-- internal/stt/mock: the offline engine, paced by the media time of the frames.
pub mod Phrases
pub mod Script
pub mod Engine
pub mod Order
pub mod Totality
mod Tests
