-- ===== src/Core/Tracer/Pairing.antt =====
-- An entry stop and the next stop of the same process make one event, whatever the other processes
-- do in between.
use loi.Prelude.{
  ℕ, ◌-◌, ◌≡◌, refl, ap, ◌∙◌, append-nil, ◌≢◌, ◌||◌, Option, some, false, List, [], ◌∷◌, ◌++◌, All,
  if◌then◌else◌, arith,
}
use loi.Prelude.Map.{find, find-insert}
use loi.Prelude.Int.{int_eq, eq_ℤ, eq_ℤ_iff}
use loi.Prelude.Text.{Text}
use loi.Core.Types.{
  Pid, WaitStatus, exited, signaled, stopped, ptrace_event, ptrace_syscall, continued, still_alive,
  done,
}
use loi.Core.Regs.{Args, UserRegs, extract_entry, extract_ret}
use loi.Core.Tracee.{entry, exit, Tracee}
use loi.Core.Event.{SyscallEvent, new}
use loi.Core.Kernel.{Kernel, wait_any, get_regs}
use loi.Core.Session.{Session, requested}
use loi.Core.Tracer.{
  tracee_of, handle_syscall_stop, handle_event, handle_signal, handle_status, syscall_name,
}
use loi.Core.Tracer.Frame.{subject, find-handle_status_ne, handle_status_config}

module _ (k : Kernel) (name : ℕ → Option Text) where
  -- A round that waits and is answered by a status.
  abbrev pub round : WaitStatus → Session → Session
  round w s = (handle_status k name w (requested wait_any s)).1

  abbrev pub rounds : List WaitStatus → Session → Session
  rounds [] s = s
  rounds (w ∷ ws) s = rounds ws (round w s)

-- No status of the list is about the process.
abbrev pub AreOthers : Pid → List WaitStatus → Type 0
AreOthers p = All (λ w. subject w ≢ some p)

-- The events of one process.
abbrev pub of_process : Pid → List SyscallEvent → List SyscallEvent
of_process p [] = []
of_process p (ev ∷ evs) = let rest = of_process p evs in if eq_ℤ ev.pid p then ev ∷ rest else rest

of_process-append :
    (p : Pid) (evs more : List SyscallEvent)
    → of_process p (evs ++ more) ≡ of_process p evs ++ of_process p more
of_process-append p [] more = refl
of_process-append p (ev ∷ evs) more = ground (arith, of_process-append p evs more)

module _ (k : Kernel) (name : ℕ → Option Text) (p : Pid) where
  handle_syscall_stop_apart :
      (q : Pid) (s : Session)
      → eq_ℤ q p ≡ false
      → of_process p (handle_syscall_stop k name q s).1.events ≡ of_process p s.events
  unfolding handle_syscall_stop new
  handle_syscall_stop_apart q s ne = grind (arith, of_process-append p s.events, append-nil)

  -- A status about another process makes no event of this one.
  handle_status_apart :
      (w : WaitStatus) (s : Session)
      → subject w ≢ some p
      → of_process p (handle_status k name w s).1.events ≡ of_process p s.events
  unfolding handle_status handle_event handle_signal
  handle_status_apart (ptrace_syscall q) s ne =
      handle_syscall_stop_apart q s (ground (arith, eq_ℤ_iff q p))
  handle_status_apart (ptrace_event q sig evt) s ne = grind arith
  handle_status_apart (stopped q sig) s ne = grind arith
  handle_status_apart (exited q code) s ne = refl
  handle_status_apart (signaled q sig) s ne = refl
  handle_status_apart (continued q) s ne = refl
  handle_status_apart still_alive s ne = refl

  pub rounds_apart :
      (ws : List WaitStatus) (s : Session)
      → AreOthers p ws
      → of_process p (rounds k name ws s).events ≡ of_process p s.events
  rounds_apart [] s others = refl
  rounds_apart (w ∷ ws) s others =
      rounds_apart ws (round k name w s) others.1
      ∙ handle_status_apart w (requested wait_any s) others.0

  pub find-rounds_ne :
      (ws : List WaitStatus) (s : Session) (t : Tracee)
      → find p s.tracees ≡ some t
      → AreOthers p ws
      → find p (rounds k name ws s).tracees ≡ some t
  find-rounds_ne [] s t known others = known
  find-rounds_ne (w ∷ ws) s t known others =
      find-rounds_ne ws (round k name w s) t
        (find-handle_status_ne k name (requested wait_any s) w p t known others.0) others.1

  -- An entry stop whose registers can be read saves them, and emits nothing.
  entry_stop :
      (s : Session) (t : Tracee) (regs : UserRegs)
      → find p s.tracees ≡ some t
      → t.phase ≡ entry
      → t.skip_next_syscall_stop ≡ false
      → k.regs_reply s.history p ≡ done regs
      → (find p (handle_syscall_stop k name p s).1.tracees
          ≡ some (record t {
            phase =
                exit
                  (extract_entry regs).0
                  (extract_entry regs).1
                  (k.clock_reply (get_regs p ∷ s.history));
          }))
        × ((handle_syscall_stop k name p s).1.events ≡ s.events)
  unfolding handle_syscall_stop tracee_of
  entry_stop s t regs known at_entry no_skip read = grind (arith, find-insert, eq_ℤ_iff p p)

  -- An exit stop whose registers can be read makes the event, and the next stop is an entry.
  exit_stop :
      (s : Session) (t : Tracee) (nr : ℕ) (args : Args) (at : ℕ) (regs : UserRegs)
      → find p s.tracees ≡ some t
      → t.phase ≡ exit nr args at
      → t.skip_next_syscall_stop ≡ false
      → k.regs_reply s.history p ≡ done regs
      → (find p (handle_syscall_stop k name p s).1.tracees ≡ some (record t { phase = entry }))
        × ((handle_syscall_stop k name p s).1.events ≡ (
            if eq_ℤ p s.root_pid || s.follow_forks
            then s.events
              ++ new p nr
                  (syscall_name name nr)
                  args
                  (extract_ret regs)
                  (k.clock_reply (get_regs p ∷ s.history) - at)
                ∷ []
            else s.events))
  unfolding handle_syscall_stop tracee_of
  exit_stop s t nr args at regs known at_exit no_skip read =
      grind (arith, find-insert, eq_ℤ_iff p p)

  rounds_config :
      (ws : List WaitStatus) (s : Session)
      → ((rounds k name ws s).root_pid ≡ s.root_pid)
        × ((rounds k name ws s).follow_forks ≡ s.follow_forks)
  rounds_config [] s = (refl, refl)
  rounds_config (w ∷ ws) s = ground (
    arith,
    handle_status_config k name w (requested wait_any s),
    rounds_config ws (round k name w s),
  )

  -- The state after a stop of the process and then the statuses of others.
  abbrev pub between : List WaitStatus → Session → Session
  between others s = rounds k name others (round k name (ptrace_syscall p) s)

  -- From a tracee at an entry that owes no stop to skip: its stop, any statuses of other processes
  -- and its next stop, with the registers readable at both, hand the sink exactly one event of the
  -- process, if it is the root or children are followed, and none if not; and this event comes at the
  -- second stop, after those of the others. It has the number and the arguments of the first stop,
  -- the result of the second, and the time between them. The tracee is then at an entry again.
  pub entry_exit_pairing :
      (s : Session) (t : Tracee) (others : List WaitStatus) (r1 r2 : UserRegs)
      → find p s.tracees ≡ some t
      → t.phase ≡ entry
      → t.skip_next_syscall_stop ≡ false
      → AreOthers p others
      → k.regs_reply (wait_any ∷ s.history) p ≡ done r1
      → k.regs_reply (wait_any ∷ (between others s).history) p ≡ done r2
      → let before = between others s in
        let after = round k name (ptrace_syscall p) before in
        let (nr, args) = extract_entry r1 in
        let started_at = k.clock_reply (get_regs p ∷ wait_any ∷ s.history) in
        let ended_at = k.clock_reply (get_regs p ∷ wait_any ∷ before.history) in
        let made =
          if eq_ℤ p s.root_pid || s.follow_forks
          then new p nr (syscall_name name nr) args (extract_ret r2) (ended_at - started_at) ∷ []
          else [] in
        (of_process p after.events ≡ of_process p s.events ++ made)
        × (after.events ≡ before.events ++ made)
        × (find p after.tracees ≡ some t)
  unfolding handle_status new
  entry_exit_pairing s t others r1 r2 known at_entry no_skip apart read1 read2 =
      let s1 = round k name (ptrace_syscall p) s in
      let first = entry_stop (requested wait_any s) t r1 known at_entry no_skip read1 in
      let waiting = find-rounds_ne others s1 _ first.0 apart in
      let second =
        exit_stop (requested wait_any (between others s)) _ (extract_entry r1).0
          (extract_entry r1).1 (k.clock_reply (get_regs p ∷ wait_any ∷ s.history)) r2 waiting refl
          no_skip read2 in
      let kept = rounds_config others s1 in
      let kept1 = handle_status_config k name (ptrace_syscall p) (requested wait_any s) in
      let before = between others s in
      let after = round k name (ptrace_syscall p) before in
      let (nr, args) = extract_entry r1 in
      let lasted =
        k.clock_reply (get_regs p ∷ wait_any ∷ before.history)
        - k.clock_reply (get_regs p ∷ wait_any ∷ s.history) in
      let made : List SyscallEvent =
        if eq_ℤ p s.root_pid || s.follow_forks
        then new p nr (syscall_name name nr) args (extract_ret r2) lasted ∷ []
        else [] in
      let appended : after.events ≡ before.events ++ made =
        ground (arith, append-nil before.events) in
      let own : of_process p made ≡ made = ground (arith, eq_ℤ_iff p p) in
      let silent : of_process p before.events ≡ of_process p s.events =
        rounds_apart others s1 apart ∙ ap (of_process p) first.1 in
      (
        ap (of_process p) appended ∙ of_process-append p before.events made ∙ rw (own, silent) refl,
        appended,
        second.0 ∙ ground arith,
      )
