-- ===== src/Stats.antt =====
-- The directory Stats/: sampling and medians.
pub mod Reservoir
pub mod Median
