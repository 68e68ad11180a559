-- ===== src/Core/Tracee.antt =====
-- crates/loi-core/src/tracee.rs: the state kept of one traced process.
use loi.Prelude.{ℕ, Bool, true, false}
use loi.Core.Regs.{Args}

-- An `Instant` is a number of nanoseconds on the monotonic clock.
pub data Phase : Type 0 where
  entry : Phase
  exit : ℕ → Args → ℕ → Phase

pub record Tracee : Type 0 where
  pub phase : Phase
  pub awaiting_initial_sigstop : Bool
  pub skip_next_syscall_stop : Bool

abbrev pub new_root : Tracee
new_root = record { phase = entry; awaiting_initial_sigstop = false; skip_next_syscall_stop = true }

abbrev pub new_child : Tracee
new_child = record {
  phase = entry;
  awaiting_initial_sigstop = true;
  skip_next_syscall_stop = false;
}
