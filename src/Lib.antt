-- ===== src/Lib.antt =====
-- A model of the host side of CUDA-JS: the components that own native resources, and the functions
-- that guard what a caller passes to a kernel.
--
-- A value that a caller or a worker may pass in is a `Value` (Js/Data): the values of JavaScript as
-- far as the validators of the source tell them apart. A text is a list of code units (Js/Chars). A
-- call that may throw returns an `Outcome` (Base/Outcome) with the `Failure` that it throws, whose
-- code and category are the source's; messages and diagnostic details are left out. A method that
-- awaits is cut at its await into two functions, and a relation of steps says what may run in
-- between. The native driver, the file system and SHA-256 are no part of the model: what they answer
-- is an argument.
--
-- Base and Js: what the components share, and the exact-fields test of the validators.
-- Failure and Health: components/driver-actor/src/health.mjs. `HealthState.transition` is
--   `transition`, `observeErrorHealth` is `observe_error_health`. A `State` is one of the five healths
--   or a name that the source's `in` finds by inheritance.
-- Registry: components/resource-registry/src/resource-registry.mjs. `allocate`, `get`, `acquire`,
--   the lease's `release`, `close` (as `begin_close` and `settle`) and `markEpochDead`; Registry/Steps
--   has every order of these calls, Registry/Invariant what they keep, Registry/Weights the sums that
--   a client keeps over its own entries. `closeTree`, `closeAll` and the inventory are not modelled.
-- Memory: components/memory/src/memory-manager.mjs. `allocate` is `reserve`, `unreserve` where the
--   driver refuses, `register`, and `roll_back` where the registry refuses, each behind its await;
--   `release` is `begin_release` and `finish_release`. The registry is shared with other owners, who
--   allocate, lease and close what they hold (Memory/Steps). Transfers and launches take a lease and
--   a range (Memory/Transfers). The texts of a failure, which the source redacts, and the usage report
--   are not modelled.
-- Views: components/memory/src/device-view-manager.mjs, `create` over a registry of any resources. A
--   dtype is read as a property key, as the source reads it; one that is an Error, or an object with a
--   `toString` of its own, is left out. `acquire`, `status` and `release` are not modelled.
-- Numeric: components/execution/src/numeric-abi.mjs. The layout of a kernel's parameters, the values
--   that a scalar may have, and the encoding of f16 and bf16 from the 64 bits of a double. The
--   writing of the parameters' bytes is not modelled.
-- Selection: components/device-selection/src/device-selection.mjs. `discover` is `begin_discover`
--   and `finish_discover`; the resolution of a compiler target is not modelled.
-- Mailbox: components/publication-mailbox/src/publication-mailbox-manager.mjs. The lanes and the
--   record of a mailbox; its registration with the driver is not modelled.
-- Startup: components/driver-actor/src/startup-rollback.mjs, the health of its error only.
-- Prepared: components/prepared-execution/src/prepared-operation-dag.mjs. Every validator of a
--   prepared DAG, `canonicalTopology` and the whole normalization. The SHA-256 of the result and the
--   text that it is taken of are not modelled.
-- Driver: components/driver-actor/src/protocol.mjs. `validate_request` for each operation of the
--   driver, and `assert_public_record`. Bigints below zero are left out, and so is raw storage but
--   ordinary bytes and shared buffers.
-- Execution: components/execution/src/execution-manager.mjs. Execution/Scheduler has the operations
--   in flight on the private streams: `initialize`, and `submitAdapterOperation` as `submit`, or as
--   `submit_first` where no stream is made, by what the driver and the registry answer;
--   Execution/Completion has `operationStatus`, `legacyTimeout` and `releaseOperation`, and
--   Execution/Races every order of these calls. Execution/Admission is `assertCommandAllowed`;
--   Execution/Requests and Execution/Accesses are the validators. A call is taken whole between its
--   awaits. The registration of modules and functions, prepared batches, device continuations and the
--   loops of `launch` and `prepareClose` are not modelled.
--
-- A loop of the source that is modelled is over a list or a range of numbers, but for that of
-- `canonicalTopology`: it runs for as many rounds as there are nodes, which is enough, since a round
-- submits a node or stops. The bounds are the source's: safe integers below 2 ^ 53, and the limits
-- that it names.
--
-- Not modelled are the transfers of host memory, the driver's threads and native backends, the
-- compiler's actor, the translator of device functions, the facade and the library adapters.
pub mod Base
pub mod Driver
pub mod Execution
pub mod Failure
pub mod Health
pub mod Js
pub mod Mailbox
pub mod Memory
pub mod Numeric
pub mod Prepared
pub mod Registry
pub mod Selection
pub mod Startup
pub mod Views
