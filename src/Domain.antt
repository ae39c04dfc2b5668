-- ===== src/Domain.antt =====
-- The values of crates/caly-domain.
pub mod Text
pub mod Operation
pub mod Event
pub mod Identity
pub mod State
mod Tests
