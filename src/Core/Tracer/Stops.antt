-- ===== src/Core/Tracer/Stops.antt =====
-- What a stop that is no system call makes the tracer do: signals, and the stop that follows exec.
use loi.Prelude.{
  ℕ, ◌≡◌, refl, ap, ◌∙◌, Option, some, none, true, false, List, [], ◌∷◌, ◌++◌, if◌then◌else◌, arith,
}
use loi.Prelude.Map.{find, find-insert}
use loi.Prelude.Int.{int_eq, eq_ℤ_iff}
use loi.Prelude.Text.{Text}
use loi.Prelude.Result.{ok}
use loi.Core.Types.{
  Pid, Signal, PtraceEvent, sigstop, sigtrap, event_exec, WaitStatus, exited, signaled, stopped,
  ptrace_event, ptrace_syscall, continued, still_alive,
}
use loi.Core.Tracee.{entry, Tracee}
use loi.Core.Kernel.{Kernel, History, wait_any, resume}
use loi.Core.Session.{Session, requested}
use loi.Core.Tracer.{
  tracee_of, entry_or_new, is_initial_stop, handle_signal, handle_event, handle_syscall_stop,
  handle_status,
}
use loi.Core.Tracer.Frame.{find-entry_or_new}
use loi.Core.Tracer.Pairing.{round, rounds, AreOthers, of_process, rounds_apart, find-rounds_ne}

module _ (k : Kernel) (p : Pid) (sig : Signal) (s : Session) where
  -- A signal stop makes one request: the process goes on, with its signal unless it is the stop
  -- that a new child begins with; and that stop is no longer awaited.
  pub handle_signal_lem :
      let t = tracee_of p s.tracees in
      let initial = is_initial_stop t.awaiting_initial_sigstop sig in
      ((handle_signal k p sig s).1.history
        ≡ resume p (if initial then none else some sig) ∷ s.history)
      × (find p (handle_signal k p sig s).1.tracees
          ≡ some (if initial then record t { awaiting_initial_sigstop = false } else t))
  unfolding handle_signal
  handle_signal_lem = ground (
    arith,
    find-entry_or_new p p s.tracees,
    find-insert p p (record (tracee_of p s.tracees) { awaiting_initial_sigstop = false })
        (entry_or_new p s.tracees),
    eq_ℤ_iff p p,
  )

module _ (k : Kernel) (name : ℕ → Option Text) (p : Pid) where
  -- The first SIGSTOP of a process that awaits it is swallowed, and after any statuses of other
  -- processes the next one is delivered.
  pub initial_sigstop_once :
      (s : Session) (others : List WaitStatus)
      → (tracee_of p s.tracees).awaiting_initial_sigstop ≡ true
      → AreOthers p others
      → let first = round k name (stopped p sigstop) s in
        let second = round k name (stopped p sigstop) (rounds k name others first) in
        (first.history ≡ resume p none ∷ wait_any ∷ s.history)
        × (second.history
            ≡ resume p (some sigstop) ∷ wait_any ∷ (rounds k name others first).history)
  unfolding handle_status tracee_of
  initial_sigstop_once s others awaits apart =
      let first = round k name (stopped p sigstop) s in
      let swallowed = handle_signal_lem k p sigstop (requested wait_any s) in
      let kept = find-rounds_ne k name p others first _ swallowed.1 apart in
      let delivered =
        handle_signal_lem k p sigstop (requested wait_any (rounds k name others first)) in
      ground arith

  after_exec :
      (s : Session) (t : Tracee)
      → find p s.tracees ≡ some t
      → find p (handle_event k p event_exec s).1.tracees
        ≡ some (record t { phase = entry; skip_next_syscall_stop = true })
  unfolding handle_event
  after_exec s t known = grind (arith, find-insert, eq_ℤ_iff p p)

  -- An event of ptrace hands the sink nothing.
  event_silent : (evt : PtraceEvent) (s : Session) → (handle_event k p evt s).1.events ≡ s.events
  unfolding handle_event
  event_silent evt s = grind arith

  pub skipped_stop :
      (s : Session) (t : Tracee)
      → find p s.tracees ≡ some t
      → t.skip_next_syscall_stop ≡ true
      → let after = (handle_syscall_stop k name p s).1 in
        (find p after.tracees ≡ some (record t { skip_next_syscall_stop = false }))
        × (after.history ≡ resume p none ∷ s.history)
        × (after.events ≡ s.events)
  unfolding handle_syscall_stop tracee_of
  skipped_stop s t known skips = grind (arith, find-insert, eq_ℤ_iff p p)

  -- From an exec event of a known process to its next system call stop, whatever the others do in
  -- between, no event is made of the process, and this stop is dropped: no register is read and no
  -- event made, it only goes on. The stop after that is an entry. This holds also where the process was
  -- in a system call whose entry had been saved, as after an execve: that call makes no event.
  pub exec_skips_one_stop :
      (s : Session) (t : Tracee) (others : List WaitStatus)
      → find p s.tracees ≡ some t
      → AreOthers p others
      → let before = rounds k name others (round k name (ptrace_event p sigtrap event_exec) s) in
        let after = round k name (ptrace_syscall p) before in
        (of_process p after.events ≡ of_process p s.events)
        × (after.events ≡ before.events)
        × (after.history ≡ resume p none ∷ wait_any ∷ before.history)
        × (find p after.tracees ≡ some (record t { phase = entry; skip_next_syscall_stop = false }))
  unfolding handle_status
  exec_skips_one_stop s t others known apart =
      let s1 = round k name (ptrace_event p sigtrap event_exec) s in
      let waiting =
        find-rounds_ne k name p others s1 _ (after_exec (requested wait_any s) t known) apart in
      let skipped = skipped_stop (requested wait_any (rounds k name others s1)) _ waiting refl in
      let silent =
        rounds_apart k name p others s1 apart
        ∙ ap (of_process p) (event_silent event_exec (requested wait_any s)) in
      (ap (of_process p) skipped.2 ∙ silent, skipped.2, skipped.1, skipped.0)

-- The processes that were told to go on, the latest first.
abbrev pub resumed : History → List Pid
resumed [] = []
resumed (resume p sig ∷ h) = p ∷ resumed h
resumed (_ ∷ h) = resumed h

-- The process that a status leaves stopped.
abbrev pub stopped_process : WaitStatus → List Pid
stopped_process (stopped p sig) = p ∷ []
stopped_process (ptrace_event p sig evt) = p ∷ []
stopped_process (ptrace_syscall p) = p ∷ []
stopped_process _ = []

-- A status that is handled with no error resumes the process that it left stopped exactly once, and
-- no other; a status that leaves none stopped resumes none.
pub handle_status_resumes :
    (k : Kernel) (name : ℕ → Option Text) (w : WaitStatus) (s : Session)
    → (handle_status k name w s).0 ≡ ok tt
    → resumed (handle_status k name w s).1.history ≡ stopped_process w ++ resumed s.history
unfolding handle_status handle_syscall_stop handle_event handle_signal
handle_status_resumes k name (ptrace_syscall p) s h = grind arith
handle_status_resumes k name (ptrace_event p sig evt) s h = grind arith
handle_status_resumes k name (stopped p sig) s h = grind arith
handle_status_resumes k name (exited p code) s h = refl
handle_status_resumes k name (signaled p sig) s h = refl
handle_status_resumes k name (continued p) s h = refl
handle_status_resumes k name still_alive s h = refl
