-- ===== src/Common.antt =====
-- The crate sn0int-common.
pub mod Id
pub mod Metadata
mod Tests
