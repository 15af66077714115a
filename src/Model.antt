-- ===== src/Model.antt =====
-- The recorded data of a tracer, package model.
pub mod State
pub mod Data
pub mod Clock
pub mod Recording
pub mod Spans
pub mod Contexts
pub mod Attributes
pub mod Finishing
pub mod Logs
pub mod Cloning
pub mod Memory
pub mod Timing
pub mod Details
pub mod Durations
pub mod History
pub mod Ids
pub mod Auth
pub mod Options
pub mod Statistics
