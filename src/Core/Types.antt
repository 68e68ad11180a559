-- ===== src/Core/Types.antt =====
-- crates/loi-core/src/error.rs, and the types of the crate `nix` that the tracer matches on, with
-- the cases that the program names.
use loi.Prelude.{ℕ, ◌≡◌, refl, ◌⊎◌, inl, inr}
use loi.Prelude.Int.{ℤ}

-- `nix::errno::Errno`.
pub data Errno : Type 0 where
  eperm esrch eintr eio echild efault einval enosys enoent unknown_errno : Errno
  other_errno : ℕ → Errno

-- `nix::sys::signal::Signal`.
pub data Signal : Type 0 where
  sigkill sigstop sigtrap : Signal
  other_signal : ℕ → Signal

-- `nix::unistd::Pid`, a wrapped i32.
abbrev pub Pid : Type 0
Pid = ℤ

-- The third argument of `WaitStatus::PtraceEvent`.
pub data PtraceEvent : Type 0 where
  event_fork event_vfork event_clone event_exec : PtraceEvent
  other_event : ℤ → PtraceEvent

-- `nix::sys::wait::WaitStatus`.
pub data WaitStatus : Type 0 where
  exited : Pid → ℤ → WaitStatus
  signaled : Pid → Signal → WaitStatus
  stopped : Pid → Signal → WaitStatus
  ptrace_event : Pid → Signal → PtraceEvent → WaitStatus
  ptrace_syscall : Pid → WaitStatus
  continued : Pid → WaitStatus
  still_alive : WaitStatus

-- `loi_core::Error`.
pub data Error : Type 0 where
  ptrace : Errno → Error
  io : Error
  tracee_gone : Error
  unknown_syscall : ℕ → Error
  invalid_command : Error
  exec : Errno → Error
  nul : Error

-- What a call into the kernel answers.
pub data Reply {ℓ} (A : Type ℓ) : Type ℓ where
  done : A → Reply A
  fails : Errno → Reply A

pub Reply-cases {ℓ} :
    {A : Type ℓ} (r : Reply A) → ((a : A) × (r ≡ done a)) ⊎ ((e : Errno) × (r ≡ fails e))
Reply-cases (done a) = inl (a, refl)
Reply-cases (fails e) = inr (e, refl)
