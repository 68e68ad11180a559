-- ===== src/Core/Tracer/Naming.antt =====
-- How the events that the sink is given are named.
use loi.Prelude.{ℕ, ◌≡◌, Option, All, All-append, arith}
use loi.Prelude.Text.{Text}
use loi.Core.Types.{
  Pid, Signal, PtraceEvent, WaitStatus, exited, signaled, stopped, ptrace_event, ptrace_syscall,
  continued, still_alive,
}
use loi.Core.Event.{SyscallEvent, new}
use loi.Core.Kernel.{Kernel, wait_any}
use loi.Core.Session.{Session, requested}
use loi.Core.Tracer.Loop.{drive_induction}
use loi.Core.Tracer.{
  syscall_name, handle_syscall_stop, handle_event, handle_signal, handle_status, tick, run,
}

-- An event has the name of its number.
abbrev pub IsNamed : (ℕ → Option Text) → SyscallEvent → Type 0
IsNamed name ev = ev.syscall_name ≡ syscall_name name ev.syscall_nr

abbrev pub AllNamed : (ℕ → Option Text) → Session → Type 0
AllNamed name s = All (IsNamed name) s.events

module _ (k : Kernel) (name : ℕ → Option Text) (s : Session) (h : AllNamed name s) where
  handle_syscall_stop-AllNamed : (pid : Pid) → AllNamed name (handle_syscall_stop k name pid s).1
  unfolding handle_syscall_stop new
  handle_syscall_stop-AllNamed pid = grind (arith, All-append (IsNamed name) s.events)

  handle_event-AllNamed :
      (pid : Pid) (evt : PtraceEvent) → AllNamed name (handle_event k pid evt s).1
  unfolding handle_event
  handle_event-AllNamed pid evt = grind arith

  handle_signal-AllNamed : (pid : Pid) (sig : Signal) → AllNamed name (handle_signal k pid sig s).1
  unfolding handle_signal
  handle_signal-AllNamed pid sig = grind arith

  handle_status-AllNamed : (w : WaitStatus) → AllNamed name (handle_status k name w s).1
  unfolding handle_status
  handle_status-AllNamed (ptrace_syscall pid) = handle_syscall_stop-AllNamed pid
  handle_status-AllNamed (ptrace_event pid sig evt) = handle_event-AllNamed pid evt
  handle_status-AllNamed (stopped pid sig) = handle_signal-AllNamed pid sig
  handle_status-AllNamed (exited pid code) = h
  handle_status-AllNamed (signaled pid sig) = h
  handle_status-AllNamed (continued pid) = h
  handle_status-AllNamed still_alive = h

module _ (k : Kernel) (name : ℕ → Option Text) where
  tick-AllNamed : (s : Session) → AllNamed name s → AllNamed name (tick k name s).1
  unfolding tick
  tick-AllNamed s h = grind (arith, handle_status-AllNamed k name (requested wait_any s))

  -- Every event that a run hands to the sink has the name of its number, whatever the kernel reports.
  pub run-AllNamed :
      (rounds : ℕ) (s : Session) → AllNamed name s → AllNamed name (run k name rounds s).1
  unfolding run
  run-AllNamed rounds s h =
      grind (arith, drive_induction k name (AllNamed name) tick-AllNamed rounds)
