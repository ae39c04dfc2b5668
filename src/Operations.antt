-- ===== src/Operations.antt =====
-- The operations of crates/caly-application: cancellation tokens, commands, records, the store, and admission.
pub mod Cancellation
pub mod Command
pub mod Record
pub mod Store
pub mod Admission
mod Tests
