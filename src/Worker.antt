-- ===== src/Worker.antt =====
-- services/worker/src: a worker process, which takes builds from the store one by one, and
-- packages/artifact-store/src, where it keeps what they produce.
pub mod Collect
pub mod Keys
pub mod World
pub mod Options
pub mod Runner
pub mod Maintain
