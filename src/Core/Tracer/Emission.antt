-- ===== src/Core/Tracer/Emission.antt =====
-- What the sink is given: only events of the root, unless children are followed.
use loi.Prelude.{ℕ, ◌≡◌, ◌||◌, Option, Bool, true, All, All-append, arith}
use loi.Prelude.Int.{ℤ, eq_ℤ}
use loi.Prelude.Text.{Text}
use loi.Core.Types.{
  Pid, Signal, PtraceEvent, WaitStatus, exited, signaled, stopped, ptrace_event, ptrace_syscall,
  continued, still_alive,
}
use loi.Core.Event.{SyscallEvent, new}
use loi.Core.Kernel.{Kernel, wait_any}
use loi.Core.Session.{Session, requested}
use loi.Core.Tracer.Loop.{drive_induction}
use loi.Core.Tracer.{handle_syscall_stop, handle_event, handle_signal, handle_status, tick, run}

-- An event that a tracer of this root may hand to its sink.
abbrev pub IsReportable : ℤ → Bool → SyscallEvent → Type 0
IsReportable root follow e = (eq_ℤ e.pid root || follow) ≡ true

-- Between two rounds: the root and the flag are the ones given, and all events are reportable.
pub record Reports (root : ℤ) (follow : Bool) (s : Session) : Type 0 where
  pub same_root : s.root_pid ≡ root
  pub same_follow : s.follow_forks ≡ follow
  pub reportable : All (IsReportable root follow) s.events

module _ (k : Kernel) (name : ℕ → Option Text) (root : ℤ) (follow : Bool) (s : Session)
    (h : Reports root follow s) where
  handle_syscall_stop-Reports :
      (pid : Pid) → Reports root follow (handle_syscall_stop k name pid s).1
  unfolding handle_syscall_stop new
  handle_syscall_stop-Reports pid = grind (arith, All-append (IsReportable root follow) s.events)

  handle_event-Reports :
      (pid : Pid) (evt : PtraceEvent) → Reports root follow (handle_event k pid evt s).1
  unfolding handle_event
  handle_event-Reports pid evt = grind arith

  handle_signal-Reports :
      (pid : Pid) (sig : Signal) → Reports root follow (handle_signal k pid sig s).1
  unfolding handle_signal
  handle_signal-Reports pid sig = grind arith

  handle_status-Reports : (w : WaitStatus) → Reports root follow (handle_status k name w s).1
  unfolding handle_status
  handle_status-Reports (ptrace_syscall pid) = handle_syscall_stop-Reports pid
  handle_status-Reports (ptrace_event pid sig evt) = handle_event-Reports pid evt
  handle_status-Reports (stopped pid sig) = handle_signal-Reports pid sig
  handle_status-Reports (exited pid code) = ground arith
  handle_status-Reports (signaled pid sig) = ground arith
  handle_status-Reports (continued pid) = h
  handle_status-Reports still_alive = h

module _ (k : Kernel) (name : ℕ → Option Text) (root : ℤ) (follow : Bool) where
  tick-Reports : (s : Session) → Reports root follow s → Reports root follow (tick k name s).1
  unfolding tick
  tick-Reports s h = grind (arith, handle_status-Reports k name root follow (requested wait_any s))

  -- A run of any length, on any kernel, hands the sink only events of the root's pid, or of any pid
  -- if children are followed; and it never changes the root or the flag.
  pub run-Reports :
      (rounds : ℕ) (s : Session)
      → Reports root follow s
      → Reports root follow (run k name rounds s).1
  unfolding run
  run-Reports rounds s h =
      grind (arith, drive_induction k name (Reports root follow) tick-Reports rounds)
