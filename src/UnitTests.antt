-- ===== src/UnitTests.antt =====
-- The unit tests of the crates, each as the conjunction of its assertions on the model. A test that
-- looks at what a parameter gives runs on a stand-in for it, which Support and the test files define.
pub mod Support
pub mod Pretty
mod Format
mod Filter
pub mod Decoders
mod Decoder
mod Registry
mod Memory
mod Json
