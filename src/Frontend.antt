-- ===== src/Frontend.antt =====
-- The debug front end, frontend/: how a request is answered, and what may be read through it.
pub mod Requests
pub mod Serving
pub mod Access
pub mod Login
pub mod Events
pub mod Streaming
pub mod Rows
pub mod Page
pub mod Listing
pub mod Format
pub mod MemoryGraph
pub mod Timeline
