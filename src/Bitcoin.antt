-- ===== src/Bitcoin.antt =====
-- The directory Bitcoin/: how numbers are written to and read from byte streams.
pub mod Le
pub mod VarInt
pub mod Tx
