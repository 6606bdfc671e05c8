-- ===== src/Prepared.antt =====
-- components/prepared-execution/src/prepared-operation-dag.mjs: a request for several operations
-- that run in the order of their dependencies.
pub mod Fields
pub mod Arguments
pub mod Accesses
pub mod Sorting
pub mod Coverage
pub mod Matmul
pub mod Topology
pub mod Walks
pub mod Rounds
pub mod Edges
pub mod Orders
pub mod Request
pub mod Accepted
mod Tests
