-- ===== src/Core/Spawn.antt =====
-- The parent's side of `Tracer::spawn` (crates/loi-core/src/tracer.rs): what it does between the fork
-- and the tracer that it returns. The pipe from the child is a parameter.
pub mod Ready
pub mod Child
pub mod Pipes
pub mod Reported
use loi.Prelude.{
  ℕ, zero, suc, ◌-◌, ◌^◌, Option, some, none, Bool, true, false, List, [], ◌∷◌, ◌++◌, length, leb,
  ◌==◌, if◌then◌else◌,
}
use loi.Prelude.Int.{ℤ, as_i32}
use loi.Prelude.Result.{Result, ok, err}
use loi.Core.Types.{
  Pid, Errno, eintr, sigstop, sigtrap, WaitStatus, exited, signaled, stopped, ptrace_event, Error,
  ptrace, tracee_gone, exec, Reply, done, fails,
}
use loi.Core.Tracee.{new_root}
use loi.Core.Kernel.{Kernel, History, wait_for, set_options, cont}
use loi.Core.Session.{Tracer}
use loi.Prelude.Word.{from_le_bytes}

-- `read` of the pipe: the answer to the n-th call, for so many bytes.
abbrev pub Pipe : Type 0
Pipe = ℕ → ℕ → Reply (List ℕ)

module _ (pipe : Pipe) where
  -- The loop of `read_full` for at most so many rounds: `none` means that it has not returned yet.
  unfoldable pub read_full : ℕ → ℕ → ℕ → List ℕ → Option (Reply (List ℕ))
  read_full zero calls len filled = if leb len (length filled) then some (done filled) else none
  read_full (suc rounds) calls len filled = elim (leb len (length filled)) [
    | true ↦ some (done filled)
    | false ↦ elim (pipe calls (len - length filled)) [
      | done [] ↦ some (done filled)
      | done (b ∷ bs) ↦ read_full rounds (suc calls) len (filled ++ b ∷ bs)
      | fails eintr ↦ read_full rounds (suc calls) len filled
      | fails e ↦ some (fails e)
    ]
  ]

  -- The errno that the child reported, if it wrote all four bytes of it.
  unfoldable pub read_exec_errno : (ℤ → Errno) → ℕ → Option Error
  read_exec_errno from_raw rounds = elim (read_full rounds 0 4 []) [
    | none ↦ none
    | some (done bs) ↦
        some (if length bs == 4 then exec (from_raw (as_i32 (from_le_bytes bs))) else tracee_gone)
    | some (fails e) ↦ some tracee_gone
  ]

-- Where a call stands: it has not returned after so many reads, or it has.
abbrev pub Outcome : Type 0
Outcome = Option (Result Error Tracer)

module _ (k : Kernel) (from_raw : ℤ → Errno) (pipe : Pipe) (rounds : ℕ) (child : Pid) where
  -- The child has ended: what it reported is the error.
  abbrev report : Outcome
  report = elim (read_exec_errno pipe from_raw rounds) [ none ↦ none | some e ↦ some (err e) ]

  -- The `match` on the status after `cont`.
  after_exec : WaitStatus → Outcome
  after_exec (ptrace_event p sig evt) =
      some
        (ok (record { root_pid = child; tracees = (child, new_root) ∷ []; follow_forks = false }))
  after_exec (stopped p sigtrap) =
      some
        (ok (record { root_pid = child; tracees = (child, new_root) ∷ []; follow_forks = false }))
  after_exec (exited p code) = report
  after_exec (signaled p sig) = report
  after_exec _ = some (err tracee_gone)

  abbrev waited : History → History
  waited h = wait_for child ∷ h

  -- From `setoptions` on.
  drive_exec : History → Outcome × History
  unfolding after_exec
  drive_exec h = elim (k.options_reply h child) [
    | fails e ↦ (some (err (ptrace e)), set_options child ∷ h)
    | done u ↦ elim (k.cont_reply (set_options child ∷ h) child) [
      | fails e ↦ (some (err (ptrace e)), cont child ∷ set_options child ∷ h)
      | done u' ↦ elim (k.wait_for_reply (cont child ∷ set_options child ∷ h) child) [
        | fails e ↦ (some (err (ptrace e)), waited (cont child ∷ set_options child ∷ h))
        | done w ↦ (after_exec w, waited (cont child ∷ set_options child ∷ h))
      ]
    ]
  ]

  -- The `match` on the first status.
  after_fork : WaitStatus → History → Outcome × History
  unfolding drive_exec
  after_fork (stopped p sigstop) h = drive_exec h
  after_fork (exited p code) h = (report, h)
  after_fork (signaled p sig) h = (report, h)
  after_fork _ h = (some (err tracee_gone), h)

  unfoldable pub finish_parent : History → Outcome × History
  unfolding after_fork
  finish_parent h = elim (k.wait_for_reply h child) [
    | fails e ↦ (some (err (ptrace e)), waited h)
    | done w ↦ after_fork w (waited h)
  ]
