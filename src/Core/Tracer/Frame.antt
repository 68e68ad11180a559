-- ===== src/Core/Tracer/Frame.antt =====
-- What one status changes of the table of tracees: at most the entry of its own process, and a new
-- entry for a child that is not known yet.
use loi.Prelude.{ℕ, ◌≡◌, refl, ap, ◌≢◌, Option, some, none, if◌then◌else◌, arith}
use loi.Prelude.Map.{Map, find, find-insert, find-remove}
use loi.Prelude.Int.{int_eq, eq_ℤ, eq_ℤ_iff}
use loi.Prelude.Text.{Text}
use loi.Core.Types.{
  Pid, Signal, PtraceEvent, WaitStatus, exited, signaled, stopped, ptrace_event, ptrace_syscall,
  continued, still_alive,
}
use loi.Core.Tracee.{Tracee, new_child}
use loi.Core.Kernel.{Kernel}
use loi.Core.Session.{Session}
use loi.Core.Tracer.{
  tracee_of, entry_or_new, handle_syscall_stop, handle_event, handle_signal, handle_status,
}

-- The process that a status is about.
abbrev pub subject : WaitStatus → Option Pid
subject (exited pid code) = some pid
subject (signaled pid sig) = some pid
subject (stopped pid sig) = some pid
subject (ptrace_event pid sig evt) = some pid
subject (ptrace_syscall pid) = some pid
subject (continued pid) = some pid
subject still_alive = none

pub find-entry_or_new :
    (q p : Pid) (m : Map Pid Tracee)
    → find p (entry_or_new q m) ≡ (if eq_ℤ q p then some (tracee_of q m) else find p m)
unfolding entry_or_new tracee_of
find-entry_or_new q p m = ground (arith, find-insert q p (new_child) m, eq_ℤ_iff q p)

module _ (k : Kernel) (s : Session) (p q : Pid) (t : Tracee) (known : find p s.tracees ≡ some t)
    (ne : q ≢ p) where
  find-handle_syscall_stop_ne :
      (name : ℕ → Option Text) → find p (handle_syscall_stop k name q s).1.tracees ≡ some t
  unfolding handle_syscall_stop
  find-handle_syscall_stop_ne name =
      grind (arith, find-insert, find-entry_or_new q p s.tracees, eq_ℤ_iff q p)

  find-handle_signal_ne : (sig : Signal) → find p (handle_signal k q sig s).1.tracees ≡ some t
  unfolding handle_signal
  find-handle_signal_ne sig =
      grind (arith, find-insert, find-entry_or_new q p s.tracees, eq_ℤ_iff q p)

-- A known tracee is kept as it is by `or_insert_with`, whatever child it is made for.
find-entry_or_new_known :
    (q p : Pid) (m : Map Pid Tracee) (t : Tracee)
    → find p m ≡ some t
    → find p (entry_or_new q m) ≡ some t
unfolding tracee_of
find-entry_or_new_known q p m t known = ground (arith, find-entry_or_new q p m, eq_ℤ_iff q p)

module _ (k : Kernel) (s : Session) (p q : Pid) (t : Tracee) (known : find p s.tracees ≡ some t)
    (ne : q ≢ p) where
  find-handle_event_ne : (evt : PtraceEvent) → find p (handle_event k q evt s).1.tracees ≡ some t
  unfolding handle_event
  find-handle_event_ne evt = grind (arith, find-insert, find-entry_or_new_known, eq_ℤ_iff q p)

-- A status about another process leaves the entry of a known tracee as it is.
pub find-handle_status_ne :
    (k : Kernel) (name : ℕ → Option Text) (s : Session) (w : WaitStatus) (p : Pid) (t : Tracee)
    → find p s.tracees ≡ some t
    → subject w ≢ some p
    → find p (handle_status k name w s).1.tracees ≡ some t
unfolding handle_status
find-handle_status_ne k name s (ptrace_syscall q) p t known ne =
    find-handle_syscall_stop_ne k s p q t known (λ e. ne (ap some e)) name
find-handle_status_ne k name s (ptrace_event q sig evt) p t known ne =
    find-handle_event_ne k s p q t known (λ e. ne (ap some e)) evt
find-handle_status_ne k name s (stopped q sig) p t known ne =
    find-handle_signal_ne k s p q t known (λ e. ne (ap some e)) sig
find-handle_status_ne k name s (exited q code) p t known ne =
    ground (arith, find-remove q p s.tracees, eq_ℤ_iff q p)
find-handle_status_ne k name s (signaled q sig) p t known ne =
    ground (arith, find-remove q p s.tracees, eq_ℤ_iff q p)
find-handle_status_ne k name s (continued q) p t known ne = known
find-handle_status_ne k name s still_alive p t known ne = known

-- No status changes the root or the flag.
pub handle_status_config :
    (k : Kernel) (name : ℕ → Option Text) (w : WaitStatus) (s : Session)
    → ((handle_status k name w s).1.root_pid ≡ s.root_pid)
      × ((handle_status k name w s).1.follow_forks ≡ s.follow_forks)
unfolding handle_status handle_syscall_stop handle_event handle_signal
handle_status_config k name (ptrace_syscall pid) s = grind arith
handle_status_config k name (ptrace_event pid sig evt) s = grind arith
handle_status_config k name (stopped pid sig) s = grind arith
handle_status_config k name (exited pid code) s = (refl, refl)
handle_status_config k name (signaled pid sig) s = (refl, refl)
handle_status_config k name (continued pid) s = (refl, refl)
handle_status_config k name still_alive s = (refl, refl)
