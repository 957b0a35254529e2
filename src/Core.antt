-- ===== src/Core.antt =====
-- The types that the other components share: crates/mentedb-core/src.
pub mod Float32
pub mod Float64
pub mod Samples
pub mod Edge
pub mod Text
pub mod Memory
pub mod Limits
pub mod Space
pub mod Versions
pub mod Conflict
pub mod Event
pub mod Agent
mod Tests
mod ConflictTests
mod EventTests
