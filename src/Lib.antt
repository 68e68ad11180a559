-- ===== src/Lib.antt =====
-- Verification of loi, a tracer of system calls for Linux.
--
-- The program forks a command under ptrace and waits for its stops (crates/loi-core). It pairs the
-- entry and the exit of each system call into an event and hands the event to a sink
-- (src/main.rs). The sink filters it (crates/loi-filter), decodes it with the decoder that a
-- registry holds for its number (crates/loi-syscalls), which reads the memory of the process
-- (crates/loi-memory), and writes it (crates/loi-output).
--
-- Files and the code that they model:
-- - Prelude and below: numbers, lists, machine words, results, maps and texts that all share. A
--   u64 is a native number with its wrap-around written out, an i64 an integer; Word.Profile tells
--   builds with overflow checks from release builds; a Result has a third case for a panic; a str
--   is the list of its UTF-8 bytes; a HashMap is an association list.
-- - Core.Types, Core.Tracee, Core.Event, Core.Regs: crates/loi-core/src/error.rs, tracee.rs,
--   event.rs and regs.rs, for both architectures.
-- - Core.Kernel, Core.Session: the kernel, which is any function from the requests made so far to
--   an answer, and a tracer at work, with its requests and the events that its sink was given. A
--   method is a function on sessions that also tells how it ended, so what it changed before an
--   early return stays changed.
-- - Core.Tracer: the handlers and the loop of crates/loi-core/src/tracer.rs. One round of the loop
--   is tick; run takes a number of rounds, and Core.Tracer.Ending says when so many are enough.
--   Below it Loop, Frame, Emission, Naming, Pairing, Stops and Ending hold the proofs.
-- - Core.Spawn: spawning in the same file, the parent's side, with Child for the fork and for the
--   child's side. The pipe is two parameters, what a write takes and what a read gives; write_all
--   and read_full have a number of rounds, and Pipes says that the interrupted calls and the bytes
--   are enough. Ready, Pipes and Reported hold proofs.
-- - Memory: crates/loi-memory/src/lib.rs; process_vm_readv is a parameter. The loop of read_cstr
--   has as many rounds as its cap, since each takes a byte at least. Below it Chunks, Pages, Cstr
--   and Overflow.
-- - Syscalls.Utf8, Syscalls.Libc, Syscalls.Decoder: the UTF-8 decoding of the standard library,
--   the constants of the crate libc as a record, and crates/loi-syscalls/src/decoder.rs.
-- - Syscalls.Decoders and below: crates/loi-syscalls/src/decoders, in Files (openat, read, write,
--   close), Stat, Maps (mmap, mprotect), Processes (clone, wait4) and Execve; Reads, Argv,
--   OpenFlags, CloneFlags, Waits, Infallible and Failures hold proofs. Signatures describes each
--   call by its manual page, with proofs in Chosen, Conforms and Clean.
-- - Syscalls.Registry: crates/loi-syscalls/src/registry.rs; the table of the crate syscalls is a
--   parameter. Lookup and Documented hold the proofs.
-- - Filter: crates/loi-filter/src/lib.rs; the crate globset is a parameter. Patterns and Gates
--   hold the proofs.
-- - Output: crates/loi-output/src/format_common.rs and, in JsonLine, json.rs; serde_json and the
--   errnos of nix are parameters. Escape, Duration and Render hold the texts of arguments and of
--   durations, with str::escape_default and the f64 arithmetic of the standard library written
--   out; Stream is a writer. Errno, Objects, Clean, Duration.Doubles, Duration.Near, Escape.Ascii,
--   Escape.Reader and Render.Reading hold proofs.
-- - Output.Style and Output.Pretty: crates/loi-output/src/pretty.rs; owo_colors is a parameter.
--   Pretty.Lines describes the lines of a run by the calls before each, with no state; Refine,
--   Colored, Texts, Appends, OneLine and Separate hold the proofs.
-- - Cli: the sink of src/main.rs, over an interface for the writers of crates/loi-output. Formats
--   fills the interface with the two formats; Main is main, which puts options, tracer and sink
--   together. Stream, Lines, Shown, Typed, Passed, Exit and, below Main, Printed, Objects,
--   OneEach, Root and Unstarted hold the proofs: what reaches the writer and in what shape, what
--   the two formats then hold, how a run ends, and what the program prints.
-- - Xtask: the tasks of xtask/src/main.rs, over a shell; Checks holds the proof.
-- - Scenarios and below: the theorems at concrete inputs.
-- - UnitTests and below: the unit tests of the crates, run on the model with stand-ins for the
--   parameters, which Support, Decoders, Filter and Scenarios define. A file has the tests of one
--   source file, those of pretty.rs in three files.
--
-- Not modelled: the bytes of a JSON value and of a style, the parsing of the command line,
-- logging, what is still flushed when main ends with an error, the benchmark in benches, the tests
-- that start processes, and the unit tests on a capacity, on the text of an error, on what the
-- parser of serde_json gives and on a serialized event. The memory of a process may change between
-- two decodings; during one decoding the answers of process_vm_readv are fixed. The closure given
-- to run sees each event at once; the model decodes the events in their order after the run, each
-- with the memory of its time, since the tracer's steps do not depend on the sink.
pub mod Prelude
pub mod Memory
pub mod Core
pub mod Syscalls
pub mod Filter
pub mod Output
pub mod Cli
pub mod Xtask
mod Scenarios
mod UnitTests
