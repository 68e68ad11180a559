-- ===== src/Core.antt =====
-- crates/loi-core: the tracer, the state that it keeps of each tracee, and the events it emits.
pub mod Types
pub mod Regs
pub mod Tracee
pub mod Event
pub mod Kernel
pub mod Session
pub mod Tracer
pub mod Spawn
