-- ===== src/Core/Tracer.antt =====
-- crates/loi-core/src/tracer.rs: the handlers of the wait loop, and the loop. The proofs are in
-- the modules below.
pub mod Loop
pub mod Frame
pub mod Emission
pub mod Naming
pub mod Pairing
pub mod Stops
pub mod Ending
use loi.Prelude.{
  ℕ, zero, suc, ◌||◌, Option, some, none, List, [], ◌∷◌, ◌++◌, Bool, true, false, if◌then◌else◌,
  is_empty, ◌≡◌, refl, ◌⊎◌, inl, inr,
}
use loi.Prelude.Map.{Map, find, insert, remove}
use loi.Prelude.Int.{ℤ, int_eq, eq_ℤ, as_i32, bits_of}
use loi.Prelude.{◌^◌}
use loi.Prelude.Result.{Result, ok, err, panic}
use loi.Prelude.Text.{Text, text}
use loi.Prelude.Print.{decimal}
use loi.Core.Types.{
  Pid, Errno, echild, eintr, Signal, sigkill, sigstop, PtraceEvent, event_fork, event_vfork,
  event_clone, event_exec, other_event, WaitStatus, exited, signaled, stopped, ptrace_event,
  ptrace_syscall, continued, still_alive, Error, ptrace, tracee_gone, Reply, done, fails,
}
use loi.Core.Regs.{Args, extract_entry, extract_ret}
use loi.Core.Tracee.{Phase, entry, exit, Tracee, new_child}
use loi.Core.Event.{new}
use loi.Core.Kernel.{Kernel, wait_any, wait_for, detach}
use loi.Core.Session.{
  Tracer, Session, Tracing, continue, ◌>>=◌, ◌>>◌, pure, requested, set_tracees, emit,
  resume_tracee, read_regs, read_event, now, elapsed,
}

-- `map.entry(pid).or_insert_with(Tracee::new_child)`: the tracee found or made, and the map.
or_new : Option Tracee → Tracee
or_new none = new_child
or_new (some t) = t

unfoldable pub tracee_of : Pid → Map Pid Tracee → Tracee
unfolding or_new
tracee_of pid m = or_new (find pid m)

abbrev contains : Option Tracee → Bool
contains none = false
contains (some t) = true

unfoldable pub entry_or_new : Pid → Map Pid Tracee → Map Pid Tracee
entry_or_new pid m = if contains (find pid m) then m else insert pid new_child m

-- Assignments through the reference that `entry` returned.
abbrev pub update : Pid → Tracee → Tracing (Unit {0})
update pid t s = (ok tt, set_tracees (insert pid t s.tracees) s)

-- `raw as i32`, for a raw c_long.
unfoldable pub child_pid_from_event : ℤ → Pid
child_pid_from_event raw = as_i32 (bits_of (2 ^ 64) raw)

unfoldable pub with_follow_forks : Bool → Tracer → Tracer
with_follow_forks on t = record t { follow_forks = on }

-- `syscall_name`, over `loi_syscalls::name`.
unfoldable pub syscall_name : (ℕ → Option Text) → ℕ → Text
syscall_name name nr = elim (name nr) [ none ↦ text "syscall_" ++ decimal nr | some s ↦ s ]

-- `if let Some(tracee) = self.tracees.get_mut(&pid)` of the exec event.
on_exec : Pid → Option Tracee → Tracing (Unit {0})
on_exec pid none = pure tt
on_exec pid (some t) = update pid (record t { phase = entry; skip_next_syscall_stop = true })

-- `tracee.awaiting_initial_sigstop && sig == Signal::SIGSTOP`
abbrev pub is_initial_stop : Bool → Signal → Bool
is_initial_stop true sigstop = true
is_initial_stop _ _ = false

-- `self.tracees.remove(&pid)`
abbrev forget : Pid → Tracing (Unit {0})
forget pid s = (ok tt, set_tracees (remove pid s.tracees) s)

module _ (k : Kernel) (name : ℕ → Option Text) where
  -- The two arms of `match tracee.phase` in `handle_syscall_stop`.
  on_phase : Pid → Tracee → Phase → Tracing (Unit {0})
  on_phase pid t entry = do
    regs ← read_regs k pid
    at ← now k
    let (nr, args) = extract_entry regs
    update pid (record t { phase = exit nr args at })
  on_phase pid t (exit nr args started_at) = do
    regs ← read_regs k pid
    duration ← elapsed k started_at
    update pid (record t { phase = entry })
    λ s.
        (if eq_ℤ pid s.root_pid || s.follow_forks
            then emit (new pid nr (syscall_name name nr) args (extract_ret regs) duration)
            else pure tt)
          s

  unfoldable pub handle_syscall_stop : Pid → Tracing (Unit {0})
  unfolding on_phase
  handle_syscall_stop pid s =
      let t = tracee_of pid s.tracees in
      let s0 = set_tracees (entry_or_new pid s.tracees) s in
      if t.skip_next_syscall_stop
      then (do update pid (record t { skip_next_syscall_stop = false }); resume_tracee k pid none)
          s0
      else (do on_phase pid t t.phase; resume_tracee k pid none) s0

module _ (k : Kernel) where
  -- The arm of the three events that report a new child.
  on_new_child : Pid → Tracing (Unit {0})
  on_new_child pid = do
    raw ← read_event k pid
    λ s. (ok tt, set_tracees (entry_or_new (child_pid_from_event raw) s.tracees) s)

  on_event : Pid → PtraceEvent → Tracing (Unit {0})
  unfolding on_exec on_new_child
  on_event pid event_fork = on_new_child pid
  on_event pid event_vfork = on_new_child pid
  on_event pid event_clone = on_new_child pid
  on_event pid event_exec = λ s. on_exec pid (find pid s.tracees) s
  on_event pid (other_event n) = pure tt

  unfoldable pub handle_event : Pid → PtraceEvent → Tracing (Unit {0})
  unfolding on_event
  handle_event pid evt = do on_event pid evt; resume_tracee k pid none

  unfoldable pub handle_signal : Pid → Signal → Tracing (Unit {0})
  handle_signal pid sig s =
      let t = tracee_of pid s.tracees in
      let s0 = set_tracees (entry_or_new pid s.tracees) s in
      if is_initial_stop t.awaiting_initial_sigstop sig
      then (do update pid (record t { awaiting_initial_sigstop = false }); resume_tracee k pid none)
          s0
      else resume_tracee k pid (some sig) s0

module _ (k : Kernel) (name : ℕ → Option Text) where
  unfoldable pub handle_status : WaitStatus → Tracing (Unit {0})
  handle_status (ptrace_syscall pid) = handle_syscall_stop k name pid
  handle_status (ptrace_event pid sig evt) = handle_event k pid evt
  handle_status (stopped pid sig) = handle_signal k pid sig
  handle_status (exited pid code) = forget pid
  handle_status (signaled pid sig) = forget pid
  handle_status (continued pid) = pure tt
  handle_status still_alive = pure tt

-- Where the loop stands after a round: it goes on, or `run` has returned.
pub data Progress : Type 0 where
  running : Progress
  finished : Result Error (Unit {0}) → Progress

pub Progress-cases :
    (p : Progress) → (p ≡ running) ⊎ ((r : Result Error (Unit {0})) × (p ≡ finished r))
Progress-cases running = inl refl
Progress-cases (finished r) = inr (r, refl)

-- `self.handle_status(status, &mut sink)?`
abbrev pub after_status : Result Error (Unit {0}) × Session → Progress × Session
after_status (ok u, s) = (running, s)
after_status (err e, s) = (finished (err e), s)
after_status (panic, s) = (finished panic, s)

module _ (k : Kernel) (name : ℕ → Option Text) where
  -- What follows `waitpid(None, None)`, by its answer.
  on_wait : Reply WaitStatus → Session → Progress × Session
  on_wait (done status) s = after_status (handle_status k name status s)
  on_wait (fails echild) s =
      if contains (find s.root_pid s.tracees)
      then (finished (err tracee_gone), s)
      else (finished (ok tt), s)
  on_wait (fails eintr) s = (running, s)
  on_wait (fails e) s = (finished (err (ptrace e)), s)

  -- One round of `while !self.tracees.is_empty()`.
  unfoldable pub tick : Session → Progress × Session
  unfolding on_wait
  tick s =
      if is_empty s.tracees
      then (finished (ok tt), s)
      else on_wait (k.wait_any_reply s.history) (requested wait_any s)

  -- The loop for at most `rounds` rounds: `running` means that it has not returned yet.
  unfoldable pub drive : ℕ → Session → Progress × Session
  drive zero s = (running, s)
  drive (suc rounds) s =
      let (progress, s') = tick s in
      elim progress [ running ↦ drive rounds s' | finished r ↦ (finished r, s') ]

  -- `run`, for at most so many rounds of its loop.
  unfoldable pub run : ℕ → Session → Progress × Session
  run rounds s =
      let (r, s') = resume_tracee k s.root_pid none s in
      elim r [
        | ok u ↦ drive rounds s'
        | err e ↦ (finished (err e), s')
        | panic ↦ (finished panic, s')
      ]

-- `Drop::drop`: both answers for each tracee are at most logged.
drop_requests : Map Pid Tracee → Session → Session
drop_requests [] s = s
drop_requests ((pid, t) ∷ m) s =
    drop_requests m (requested (wait_for pid) (requested (detach pid sigkill) s))

unfoldable pub drop_tracer : Session → Session
unfolding drop_requests
drop_tracer s = drop_requests s.tracees s
