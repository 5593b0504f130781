-- ===== src/Stats.antt =====
-- The receiver of anonymous statistics in tools/stats-worker.
pub mod Sums
pub mod Version
pub mod Secret
pub mod Access
pub mod Table
pub mod Ping
pub mod Gate
pub mod Html
