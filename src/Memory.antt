-- ===== src/Memory.antt =====
-- memory/src/memory-manager.mjs: device allocations under a quota, over the resource registry.
pub mod Policy
pub mod Failures
pub mod Books
pub mod Transfers
pub mod Leases
pub mod Executions
pub mod Steps
pub mod Balance
pub mod Releases
pub mod Registrations
pub mod Quota
mod Tests
