-- ===== src/Utils.antt =====
-- The helpers of lib/utils.c.
pub mod Base64
pub mod Lines
mod Tests
