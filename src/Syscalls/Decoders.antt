-- ===== src/Syscalls/Decoders.antt =====
-- crates/loi-syscalls/src/decoders/: one decoder for each system call.
pub mod Files
pub mod Stat
pub mod Maps
pub mod Processes
pub mod Execve
pub mod Reads
pub mod Argv
pub mod OpenFlags
pub mod CloneFlags
pub mod Waits
pub mod Infallible
pub mod Failures
pub mod Signatures
