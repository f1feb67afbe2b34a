-- ===== src/Configurations.antt =====
-- apps/api/src/configurations: the stored configurations and their revisions.
pub mod Repository
pub mod Tidy
pub mod Ownership
pub mod Histories
pub mod Revisions
pub mod Later
pub mod Guards
