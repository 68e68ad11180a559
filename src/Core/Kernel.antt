-- ===== src/Core/Kernel.antt =====
-- The kernel under the tracer: its answer to a request may depend on every request made before, so
-- a kernel is any function of that history. Nothing else is assumed of it here.
use loi.Prelude.{ℕ, List, Option}
use loi.Prelude.Int.{ℤ}
use loi.Core.Types.{Pid, Signal, WaitStatus, Reply}
use loi.Core.Regs.{UserRegs}

-- A request that the tracer makes.
pub data Request : Type 0 where
  -- `waitpid(None, None)` and `waitpid(pid, None)`
  wait_any : Request
  wait_for : Pid → Request
  -- `ptrace::syscall(pid, signal)`
  resume : Pid → Option Signal → Request
  -- `ptrace::getregs(pid)`, `ptrace::getevent(pid)`
  get_regs : Pid → Request
  get_event : Pid → Request
  -- `Instant::now`, also inside `elapsed`
  read_clock : Request
  -- `ptrace::setoptions(pid, PTRACE_OPTIONS)`, `ptrace::cont(pid, None)`
  set_options : Pid → Request
  cont : Pid → Request
  -- `ptrace::detach(pid, SIGKILL)`
  detach : Pid → Signal → Request

-- The requests made so far, the latest first.
abbrev pub History : Type 0
History = List Request

pub record Kernel : Type 0 where
  pub wait_any_reply : History → Reply WaitStatus
  pub wait_for_reply : History → Pid → Reply WaitStatus
  pub resume_reply : History → Pid → Option Signal → Reply (Unit {0})
  pub regs_reply : History → Pid → Reply UserRegs
  pub event_reply : History → Pid → Reply ℤ
  pub clock_reply : History → ℕ
  pub options_reply : History → Pid → Reply (Unit {0})
  pub cont_reply : History → Pid → Reply (Unit {0})
  pub detach_reply : History → Pid → Signal → Reply (Unit {0})
