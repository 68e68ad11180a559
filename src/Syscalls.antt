-- ===== src/Syscalls.antt =====
-- crates/loi-syscalls: the decoders of system calls and their registry.
pub mod Utf8
pub mod Libc
pub mod Decoder
pub mod Decoders
pub mod Registry
