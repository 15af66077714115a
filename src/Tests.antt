-- ===== src/Tests.antt =====
-- Concrete runs of the models, and the theorems applied to them.
pub mod Traces
pub mod Retained
pub mod Requests
pub mod Access
pub mod Disk
pub mod Settings
pub mod Views
pub mod Links
pub mod Figures
