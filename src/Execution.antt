-- ===== src/Execution.antt =====
-- components/execution/src/execution-manager.mjs: what may be launched, and the operations that are
-- in flight on its private streams.
pub mod Conflicts
pub mod Scheduler
pub mod Completion
pub mod Ordered
pub mod Preserved
pub mod Settled
pub mod Admission
pub mod Requests
pub mod Accesses
pub mod Contained
pub mod Progress
pub mod Races
mod Tests
