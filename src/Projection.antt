-- ===== src/Projection.antt =====
-- The projection of crates/caly-application.
pub mod Projector
pub mod Runtime
mod Tests
