-- ===== src/Utils.antt =====
-- The utilities that the parts of TAS share, lib/utils.
pub mod Timeout
mod Tests
