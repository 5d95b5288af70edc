-- ===== src/Ev.antt =====
-- The directory Ev/: concurrency.
pub mod Semaphore
