-- ===== src/Util.antt =====
-- The directory Util/: text.
pub mod Hex
