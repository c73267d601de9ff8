-- ===== src/Restart.antt =====
-- services/mqtt/handlers/restart.rs: the restart handler and the completion of a restart of the
-- service itself on its next start.
pub mod Files
pub mod Verify
pub mod Handler
pub mod Completion
