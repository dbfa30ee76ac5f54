-- ===== src/Caption/Hub.antt =====
-- internal/caption/hub.go: the hub. The lock `op` makes each public operation atomic, with its
-- broadcasts and callbacks, so an operation is a function of the hub and of the clock's reading.
pub mod State
pub mod Publish
pub mod Music
pub mod Operations
pub mod Cases
pub mod Painted
pub mod Record
pub mod Suppression
pub mod Replay
pub mod Quiet
pub mod Delivery
