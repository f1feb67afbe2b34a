-- ===== src/Domain.antt =====
-- packages/domain: the records, limits and rules that the API, the worker and the editor share.
pub mod Limits
pub mod Build
pub mod Keycodes
pub mod Identifiers
pub mod Configuration
pub mod Schema
pub mod Socd
pub mod Catalog
pub mod Validate
