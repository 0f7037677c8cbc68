-- ===== src/Jobs.antt =====
-- packages/jobs/src/index.ts: the in-memory job queue with bounded workers.
pub mod State
pub mod Progress
pub mod Manager
pub mod Execution
pub mod Cancellation
pub mod Reporting
pub mod Invariant
pub mod Finish
pub mod Preservation
pub mod Upkeep
pub mod Steps
mod Tests
