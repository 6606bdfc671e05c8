-- ===== src/Registry.antt =====
-- resource-registry/src: capabilities for native resources.
pub mod Forest
pub mod Prune
pub mod Graft
pub mod State
pub mod Tokens
pub mod Access
pub mod Allocation
pub mod Disposal
pub mod Closing
pub mod Locating
pub mod Steps
pub mod Invariant
pub mod Quiet
pub mod Leasing
pub mod Pending
pub mod Settling
pub mod Settled
pub mod Picking
pub mod Allocated
pub mod Safety
pub mod Spent
pub mod Naming
pub mod Guarantees
pub mod Weights
mod Tests
