-- ===== src/Ln.antt =====
-- The directory Ln/: amounts, short channel identifiers and feature bits of the Lightning Network.
pub mod Amount
pub mod FeatureBit
pub mod Scid
