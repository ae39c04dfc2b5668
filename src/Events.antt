-- ===== src/Events.antt =====
-- The events of crates/caly-application.
pub mod Sequencer
pub mod Bus
