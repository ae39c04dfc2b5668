-- ===== src/Subscription.antt =====
-- crates/caly-subscription/src: what a subscription's nodes must satisfy before they are used.
pub mod Chain
mod Tests
