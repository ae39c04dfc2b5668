-- ===== src/Recovery.antt =====
-- Recovery from crashes: the restarts of a core that exited (crates/caly-composition/src/recovery.rs)
-- and the platform effects that a dead daemon left behind (crates/caly-platform/src/recovery).
pub mod CrashLoop
pub mod AtomicWrite
pub mod RestoreFirst
mod Tests
