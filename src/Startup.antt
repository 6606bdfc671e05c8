-- ===== src/Startup.antt =====
-- driver-actor/src/startup-rollback.mjs: the error of a runtime that could neither start nor clean
-- up.
pub mod Rollback
mod Tests
