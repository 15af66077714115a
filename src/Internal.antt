-- ===== src/Internal.antt =====
-- Package internal: the helpers of the tracer.
pub mod Broker
pub mod RateSampler
pub mod IgnoredPath
pub mod ResponseWriter
pub mod Environment
pub mod RemoteAddress
pub mod MemoryLimit
pub mod Choosing
