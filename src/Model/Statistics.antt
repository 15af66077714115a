-- ===== src/Model/Statistics.antt =====
-- The rolling statistics, model/stats.go.
pub mod Tallies
pub mod Sorting
pub mod Stable
pub mod Hosts
pub mod Report
pub mod Groups
pub mod Totals
