-- ===== src/Driver.antt =====
-- components/driver-actor/src/protocol.mjs: the requests that the driver's worker accepts, and the
-- records that may leave it.
pub mod Shapes
pub mod Launches
pub mod Operations
pub mod Payloads
pub mod Commands
pub mod Requests
pub mod Records
pub mod Public
pub mod Accepted
pub mod ViewFields
pub mod Creation
pub mod Operands
mod Tests
