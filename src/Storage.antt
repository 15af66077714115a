-- ===== src/Storage.antt =====
-- Package storage: the results that its drivers share, and the drivers.
pub mod Results
pub mod Memory
pub mod Disk
