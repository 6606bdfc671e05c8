-- ===== src/Views.antt =====
-- memory/src/device-view-manager.mjs: typed views of device allocations.
pub mod Options
pub mod Ranges
mod Tests
