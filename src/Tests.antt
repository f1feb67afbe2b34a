-- ===== src/Tests.antt =====
-- Runs of the definitions on concrete data, and each theorem applied to such data.
pub mod Queue
pub mod Sweeps
pub mod Editing
pub mod Saving
pub mod Rules
pub mod Targets
pub mod Generating
pub mod Collecting
pub mod Working
