-- ===== src/Core/Spawn/Ready.antt =====
-- The tracer that spawning returns is ready for the first stop of its root.
use loi.Prelude.{
  ℕ, ◌≡◌, ◌≢◌, ◌⊎◌, inl, inr, refl, Option, some, none, false, Bool, List, [], ◌∷◌, All, arith,
}
use loi.Prelude.Map.{find}
use loi.Prelude.Int.{ℤ, int_eq, eq_ℤ_iff}
use loi.Prelude.Result.{ok}
use loi.Prelude.Text.{Text}
use loi.Core.Types.{Pid, Errno, Signal, WaitStatus, stopped, ptrace_syscall}
use loi.Core.Tracee.{Tracee, new_root}
use loi.Core.Kernel.{Kernel, History, wait_any, wait_for, set_options, cont, resume}
use loi.Core.Session.{Tracer, Session, requested, resume_tracee}
use loi.Core.Tracer.{handle_status, tracee_of, with_follow_forks}
use loi.Core.Tracer.Frame.{subject, find-handle_status_ne}
use loi.Core.Tracer.Pairing
use loi.Core.Tracer.Pairing.{round}
use loi.Core.Tracer.Stops.{handle_signal_lem, skipped_stop}
use loi.Core.Spawn.{Pipe, finish_parent}

-- A tracer at the start of `run`.
abbrev pub begin : Tracer → History → Session
begin t h = record { tracer = t; history = h; events = [] }

-- A status of another process, or a signal of this one.
abbrev pub ComesBefore : Pid → WaitStatus → Type 0
ComesBefore p w = (subject w ≢ some p) ⊎ ((sig : Signal) × (w ≡ stopped p sig))

module _ (k : Kernel) (name : ℕ → Option Text) (p : Pid) where
  round_before :
      (w : WaitStatus) (s : Session) (t : Tracee)
      → find p s.tracees ≡ some t
      → t.awaiting_initial_sigstop ≡ false
      → ComesBefore p w
      → find p (round k name w s).tracees ≡ some t
  unfolding handle_status tracee_of
  round_before w s t known settled (inl other) =
      find-handle_status_ne k name (requested wait_any s) w p t known other
  round_before w s t known settled (inr (sig, signal)) =
      rw signal (grind (arith, handle_signal_lem k p sig (requested wait_any s)))

  find-rounds_before :
      (ws : List WaitStatus) (s : Session) (t : Tracee)
      → find p s.tracees ≡ some t
      → t.awaiting_initial_sigstop ≡ false
      → All (ComesBefore p) ws
      → find p (Pairing.rounds k name ws s).tracees ≡ some t
  find-rounds_before [] s t known settled early = known
  find-rounds_before (w ∷ ws) s t known settled early =
      find-rounds_before ws (round k name w s) t (round_before w s t known settled early.0) settled
        early.1

module _ (k : Kernel) (from_raw : ℤ → Errno) (pipe : Pipe) (rounds : ℕ) (child : Pid)
    (h : History) where
  -- A tracer is returned only after the four requests, each granted, and it tracks the child alone.
  finish_parent_ok :
      (t : Tracer)
      → (finish_parent k from_raw pipe rounds child h).0 ≡ some (ok t)
      → (t ≡ record { root_pid = child; tracees = (child, new_root) ∷ []; follow_forks = false })
        × ((finish_parent k from_raw pipe rounds child h).1
            ≡ wait_for child ∷ cont child ∷ set_options child ∷ wait_for child ∷ h)
  unfolding finish_parent
  finish_parent_ok t eq = grind arith

  -- If spawning returns a tracer, then the child was waited for, given the options, let go on and
  -- waited for again, in this order. When `run` has then let the child go on, and after any statuses
  -- of other processes and any signals of the child, its first system call stop, which is the exit of
  -- its execve, is dropped: no register is read and no event made, it only goes on, and its next stop
  -- is an entry.
  pub spawned_first_stop_dropped :
      (name : ℕ → Option Text) (t : Tracer) (follow : Bool) (ws : List WaitStatus)
      → (finish_parent k from_raw pipe rounds child h).0 ≡ some (ok t)
      → All (ComesBefore child) ws
      → let s =
          begin (with_follow_forks follow t) (finish_parent k from_raw pipe rounds child h).1 in
        let before = Pairing.rounds k name ws (resume_tracee k s.root_pid none s).1 in
        let after = round k name (ptrace_syscall child) before in
        (s.history ≡ wait_for child ∷ cont child ∷ set_options child ∷ wait_for child ∷ h)
        × (after.events ≡ before.events)
        × (after.history ≡ resume child none ∷ wait_any ∷ before.history)
        × (find child after.tracees ≡ some (record new_root { skip_next_syscall_stop = false }))
  unfolding handle_status find with_follow_forks
  spawned_first_stop_dropped name t follow ws eq early =
      let s = begin (with_follow_forks follow t) (finish_parent k from_raw pipe rounds child h).1 in
      let started = (resume_tracee k s.root_pid none s).1 in
      let before = Pairing.rounds k name ws started in
      let (same, requests) = finish_parent_ok t eq in
      let known : find child t.tracees ≡ some new_root =
        rw same (ground (arith, eq_ℤ_iff child child)) in
      let waiting = find-rounds_before k name child ws started new_root known refl early in
      let (settled, resumed, silent) =
        skipped_stop k name child (requested wait_any before) new_root waiting refl in
      (requests, silent, resumed, settled)
