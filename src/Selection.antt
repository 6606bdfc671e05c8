-- ===== src/Selection.antt =====
-- device-selection/src/device-selection.mjs: discovery of devices, and opaque selectors of them.
pub mod Inventory
pub mod Authority
pub mod Discoveries
mod Tests
