-- ===== src/Core/Spawn/Child.antt =====
-- `Tracer::spawn` (crates/loi-core/src/tracer.rs) with the child's side: what runs between the fork
-- and the exec, and the pipe that the child reports on.
use loi.Prelude.{
  ℕ, zero, suc, ◌^◌, ◌/◌, ◌%◌, Option, none, some, Bool, true, false, List, [], ◌∷◌, ◌++◌, any,
  length, take, drop, leb, ◌==◌, if◌then◌else◌,
}
use loi.Prelude.Int.{ℤ, pos, bits_of}
use loi.Prelude.Result.{Result, ok, err, panic}
use loi.Prelude.Text.{Text}
use loi.Core.Types.{
  Pid, Errno, eintr, eio, einval, Error, ptrace, invalid_command, nul, Reply, done, fails,
}
use loi.Core.Kernel.{Kernel, History}
use loi.Core.Spawn.{Pipe, Outcome, finish_parent}

-- `write` to the pipe: the answer to the n-th call, for so many bytes.
abbrev pub Sink : Type 0
Sink = ℕ → ℕ → Reply ℕ

-- The loop of `write_all` for at most so many rounds, with what the pipe has taken: `none` means that
-- it has not returned yet. The slice panics where the pipe claims more than it was given.
unfoldable pub write_all :
    Sink → ℕ → ℕ → List ℕ → List ℕ → Option (Result Errno (Unit {0})) × List ℕ
write_all sink rounds calls [] sent = (some (ok tt), sent)
write_all sink zero calls (b ∷ buf) sent = (none, sent)
write_all sink (suc rounds) calls (b ∷ buf) sent = elim (sink calls (suc (length buf))) [
  | done zero ↦ (some (err eio), sent)
  | done (suc n) ↦ elim (leb n (length buf)) [
    | true ↦ write_all sink rounds (suc calls) (drop n buf) (sent ++ b ∷ take n buf)
    | false ↦ (some panic, sent)
  ]
  | fails eintr ↦ write_all sink rounds (suc calls) (b ∷ buf) sent
  | fails e ↦ (some (err e), sent)
]

-- `i32::to_ne_bytes` on the two architectures, both little-endian.
abbrev pub word_bytes : ℕ → List ℕ
word_bytes w = w % 256 ∷ w / 256 % 256 ∷ w / 65536 % 256 ∷ w / 16777216 % 256 ∷ []

abbrev pub to_le_bytes : ℤ → List ℕ
to_le_bytes z = word_bytes (bits_of (2 ^ 32) z)

-- The kernel under the child: `ptrace::traceme`, `raise(SIGSTOP)` and `execvp`, which returns only
-- with an errno.
pub record ChildKernel : Type 0 where
  pub traceme : Reply (Unit {0})
  pub raise_sigstop : Reply (Unit {0})
  pub execvp : Text → List Text → Option Errno

-- How `try_child` ends: the program is replaced, or an errno is left.
pub data Attempt : Type 0 where
  replaced : Attempt
  left : Errno → Attempt

unfoldable pub try_child : ChildKernel → List Text → Attempt
try_child c argv = elim c.traceme [
  | fails e ↦ left e
  | done u ↦ elim c.raise_sigstop [
    | fails e ↦ left e
    | done v ↦ elim argv [
      | [] ↦ left einval
      | argv0 ∷ rest ↦ elim (c.execvp argv0 (argv0 ∷ rest)) [ none ↦ replaced | some e ↦ left e ]
    ]
  ]
]

-- How the child ends, and what it has sent: it became the command, it exits with a status, or it is
-- still writing.
pub data ChildEnd : Type 0 where
  becomes : ChildEnd
  exits : ℤ → List ℕ → ChildEnd
  writing : List ℕ → ChildEnd
  panics : List ℕ → ChildEnd

abbrev pub exec_failure_exit : ℤ
exec_failure_exit = pos 127

module _ (c : ChildKernel) (as_raw : Errno → ℤ) (sink : Sink) (rounds : ℕ) where
  abbrev after_write : Option (Result Errno (Unit {0})) × List ℕ → ChildEnd
  after_write (none, sent) = writing sent
  after_write (some panic, sent) = panics sent
  after_write (some _, sent) = exits exec_failure_exit sent

  -- Whether the write succeeds does not matter.
  unfoldable pub run_child : List Text → ChildEnd
  run_child argv = elim (try_child c argv) [
    | replaced ↦ becomes
    | left e ↦ after_write (write_all sink rounds 0 (to_le_bytes (as_raw e)) [])
  ]

-- `CString::new` of each argument: one with a NUL byte is refused.
abbrev pub has_nul : Text → Bool
has_nul = any (λ b. b == 0)

-- `fork`, and which process goes on.
pub data ForkResult : Type 0 where
  fork_child : ForkResult
  fork_parent : Pid → ForkResult

pub data Spawned : Type 0 where
  in_child : ChildEnd → Spawned
  in_parent : Outcome → Spawned

module _ (k : Kernel) (from_raw : ℤ → Errno) (pipe : Pipe) (c : ChildKernel) (as_raw : Errno → ℤ)
    (sink : Sink) (rounds : ℕ) (pipe2 : Reply (Unit {0})) (fork : Reply ForkResult) where
  abbrev refused : Error → History → Spawned × History
  refused e h = (in_parent (some (err e)), h)

  abbrev in_process : ForkResult → List Text → History → Spawned × History
  in_process fork_child argv h = (in_child (run_child c as_raw sink rounds argv), h)
  in_process (fork_parent child) argv h =
      let (outcome, h') = finish_parent k from_raw pipe rounds child h in (in_parent outcome, h')

  unfoldable pub spawn : List Text → History → Spawned × History
  spawn [] h = refused invalid_command h
  spawn (s ∷ command) h = if any has_nul (s ∷ command) then refused nul h else elim pipe2 [
    | fails e ↦ refused (ptrace e) h
    | done u ↦ elim fork [
      | fails e ↦ refused (ptrace e) h
      | done forked ↦ in_process forked (s ∷ command) h
    ]
  ]
