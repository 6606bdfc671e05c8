-- ===== src/Mailbox.antt =====
-- publication-mailbox/src/publication-mailbox-manager.mjs: lanes of one word each, shared with a
-- kernel, behind a generation.
pub mod Lanes
pub mod Record
pub mod Pointers
pub mod Generations
mod Tests
