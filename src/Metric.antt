-- ===== src/Metric.antt =====
-- The metrics.
pub mod Counter
pub mod Sums
pub mod Recorder
pub mod Merges
