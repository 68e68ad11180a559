-- ===== src/Scenarios.antt =====
-- The theorems at concrete inputs, and the values that they need.
mod Tracing
mod Spawning
pub mod Reading
pub mod Host
mod Decoding
mod Vectors
pub mod Filtering
mod Output
mod Pretty
mod Printing
pub mod Compact
mod Objects
mod Whole
mod Unstarted
mod Durations
