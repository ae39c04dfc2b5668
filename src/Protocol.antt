-- ===== src/Protocol.antt =====
-- crates/caly-protocol/src: negotiation, decode budgets and framing of the control protocol.
pub mod Handshake
pub mod Budget
pub mod Framing
mod Tests
