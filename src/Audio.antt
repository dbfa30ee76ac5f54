-- ===== src/Audio.antt =====
-- internal/audio: the PCM format, frames, levels and the caption noise gate.
pub mod Float
pub mod Format
pub mod Level
pub mod Toy
pub mod NoiseGate
pub mod Broadcast
pub mod Capture
pub mod Monitor
pub mod Devices
mod Tests
