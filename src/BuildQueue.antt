-- ===== src/BuildQueue.antt =====
-- packages/build-queue: the repository that the API calls and the queue that the worker calls,
-- over one store.
pub mod Types
pub mod Store
pub mod Keys
pub mod Next
pub mod Evolution
pub mod History
pub mod Leases
pub mod Held
pub mod Completion
pub mod Distinct
pub mod Replay
pub mod Reclaim
pub mod Reap
pub mod Pages
