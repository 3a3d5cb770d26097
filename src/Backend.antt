-- ===== src/Backend.antt =====
-- crates/zipmania-archive/src/backend/mod.rs: what the backends share, and the choice among them.
pub mod Results
pub mod Conflicts
pub mod Router
