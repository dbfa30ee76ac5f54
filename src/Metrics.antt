-- ===== src/Metrics.antt =====
-- internal/metrics: how the session is going.
pub mod ConnState
pub mod Latency
pub mod State
pub mod Operations
pub mod Percentile
pub mod Health
pub mod Report
pub mod Snapshot
pub mod History
pub mod Phases
pub mod Degraded
pub mod Pauses
mod Tests
