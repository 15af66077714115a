-- ===== src/Tracer.antt =====
-- The recorder, tracer.go: counters, the traces in flight and the hand-over to storage.
pub mod Store
pub mod State
pub mod Recording
pub mod Requests
pub mod Reading
pub mod Counters
pub mod Outcome
pub mod Retained
pub mod Snapshots
