-- ===== src/Application/Handlers.antt =====
-- crates/caly-application/src/actors: what the five owners' handlers have in common, and the handler
-- that a routed command reaches.
pub mod Lifecycle
pub mod Core
pub mod Config
pub mod Platform
pub mod Subscription
pub mod Deliver
pub mod PortLaws
pub mod Answers
pub mod Reports
pub mod Transaction
pub mod Tests
