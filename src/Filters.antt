-- ===== src/Filters.antt =====
-- src/filters/: the filters that delay, or hold back what does not last.
pub mod Glitch
pub mod Delayed
pub mod Average
