-- ===== src/Application.antt =====
-- crates/caly-application/src: the routing of commands to the actors that own them, the handlers of
-- those actors, and the reports that they send back.
pub mod Routing
pub mod Reporting
pub mod Ports
pub mod Actors
pub mod Handlers
pub mod Loop
