-- ===== src/Tests.antt =====
-- Runs of the definitions on small inputs, and the theorems applied at concrete ones.
pub mod Parsing
pub mod Bodies
pub mod Sending
pub mod Retrying
pub mod Pooling
pub mod Pipelining
pub mod Proxying
pub mod Caching
pub mod Scheduling
pub mod Linking
pub mod Measuring
pub mod Batching
