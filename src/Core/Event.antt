-- ===== src/Core/Event.antt =====
-- crates/loi-core/src/event.rs: one completed system call.
use loi.Prelude.{ℕ, ◌^◌, Option, some, none, ltb, if◌then◌else◌}
use loi.Prelude.Int.{ℤ}
use loi.Prelude.Text.{Text}
use loi.Core.Regs.{Args}

-- The duration is in nanoseconds.
pub record SyscallEvent : Type 0 where
  pub pid : ℤ
  pub syscall_nr : ℕ
  pub syscall_name : Text
  pub args : Args
  pub ret : ℤ
  pub duration : ℕ

unfoldable pub new : ℤ → ℕ → Text → Args → ℤ → ℕ → SyscallEvent
new p nr name a r d = record {
  pid = p;
  syscall_nr = nr;
  syscall_name = name;
  args = a;
  ret = r;
  duration = d;
}

-- `u64::try_from(d.as_nanos())` of `duration_nanos::serialize`: `none` is its error.
unfoldable pub serialize_duration : ℕ → Option ℕ
serialize_duration nanos = if ltb nanos (2 ^ 64) then some nanos else none
