-- ===== src/Core/Spawn/Reported.antt =====
-- What `spawn` returns when the child cannot become the command.
use loi.Prelude.{
  ℕ, ◌+◌, ◌<◌, ◌≡◌, refl, ◌∙◌, ◌⊎◌, inl, inr, some, false, List, [], ◌∷◌, any, length, arith,
}
use loi.Prelude.Int.{ℤ, IsI32}
use loi.Prelude.Result.{ok, err}
use loi.Prelude.Text.{Text}
use loi.Core.Types.{
  Pid, Errno, Error, exec, tracee_gone, done, stopped, exited, signaled, sigstop, WaitStatus,
  ptrace_event, ptrace_syscall, continued, still_alive,
}
use loi.Core.Kernel.{Kernel, History, wait_for, set_options, cont}
use loi.Core.Spawn.{Pipe, finish_parent, after_fork, after_exec, drive_exec, read_exec_errno}
use loi.Core.Spawn.Child.{
  Sink, ChildKernel, try_child, left, write_all, to_le_bytes, ChildEnd, becomes, exits, writing,
  panics, exec_failure_exit, run_child, has_nul, fork_parent, Spawned, in_parent, spawn,
}
use loi.Core.Spawn.Pipes.{
  Takes, write_all_sends, Delivers, read_exec_errno_whole, read_exec_errno_short,
}

-- The child has ended.
abbrev pub Ended : WaitStatus → Type 0
Ended (exited p code) = Unit
Ended (signaled p sig) = Unit
Ended _ = ⊥

-- The parent learns of the end at its first wait, or at its second, after the stop of the child.
abbrev pub SeesEnd : Kernel → Pid → History → Type 0
SeesEnd k child h =
    let h1 = wait_for child ∷ h in
    let h2 = set_options child ∷ h1 in
    let h3 = cont child ∷ h2 in
    ((w : WaitStatus) × (k.wait_for_reply h child ≡ done w) × Ended w)
    ⊎ ((k.wait_for_reply h child ≡ done (stopped child sigstop))
        × (k.options_reply h1 child ≡ done tt)
        × (k.cont_reply h2 child ≡ done tt)
        × ((w : WaitStatus) × (k.wait_for_reply h3 child ≡ done w) × Ended w))

-- What a child has sent.
abbrev pub sent_by : ChildEnd → List ℕ
sent_by becomes = []
sent_by (exits status bs) = bs
sent_by (writing bs) = bs
sent_by (panics bs) = bs

module _ (k : Kernel) (from_raw : ℤ → Errno) (pipe : Pipe) (rounds : ℕ) (child : Pid) where
  module _ (e : Error) (report : read_exec_errno pipe from_raw rounds ≡ some e) where
    after_fork-Ended :
        (w : WaitStatus) (h : History)
        → Ended w
        → (after_fork k from_raw pipe rounds child w h).0 ≡ some (err e)
    unfolding after_fork
    after_fork-Ended (exited p code) h ended = grind arith
    after_fork-Ended (signaled p sig) h ended = grind arith
    after_fork-Ended (stopped p sig) h ended = absurd ended
    after_fork-Ended (ptrace_event p sig evt) h ended = absurd ended
    after_fork-Ended (ptrace_syscall p) h ended = absurd ended
    after_fork-Ended (continued p) h ended = absurd ended
    after_fork-Ended still_alive h ended = absurd ended

    after_exec-Ended :
        (w : WaitStatus) → Ended w → after_exec k from_raw pipe rounds child w ≡ some (err e)
    unfolding after_exec
    after_exec-Ended (exited p code) ended = grind arith
    after_exec-Ended (signaled p sig) ended = grind arith
    after_exec-Ended (stopped p sig) ended = absurd ended
    after_exec-Ended (ptrace_event p sig evt) ended = absurd ended
    after_exec-Ended (ptrace_syscall p) ended = absurd ended
    after_exec-Ended (continued p) ended = absurd ended
    after_exec-Ended still_alive ended = absurd ended

    -- What was reported is returned.
    finish_parent_report :
        (h : History)
        → SeesEnd k child h
        → (finish_parent k from_raw pipe rounds child h).0 ≡ some (err e)
    unfolding finish_parent after_fork drive_exec
    finish_parent_report h (inl (w, first, over)) =
        rw (first, finish_parent) (after_fork-Ended w (wait_for child ∷ h) over)
    finish_parent_report h (inr (first, options, goes, (w, second, over))) =
        rw (first, finish_parent)
          (rw (options, drive_exec)
            (rw (goes, drive_exec) (rw (second, drive_exec) (after_exec-Ended w over))))

module _ (k : Kernel) (from_raw : ℤ → Errno) (pipe : Pipe) (c : ChildKernel) (as_raw : Errno → ℤ)
    (sink : Sink) (limit : ℕ) (child : Pid) (h : History) (argv0 : Text) (rest : List Text)
    (no_nul : any has_nul (argv0 ∷ rest) ≡ false) (sees : SeesEnd k child h) where
  -- `spawn` in the child, and in the parent.
  abbrev pub child_side : ChildEnd
  child_side = run_child c as_raw sink (limit + 4) (argv0 ∷ rest)

  abbrev pub parent_side : Spawned
  parent_side =
      (spawn k from_raw pipe c as_raw sink (limit + 4) (done tt) (done (fork_parent child))
        (argv0 ∷ rest) h).0

  parent_side_report :
      (e : Error)
      → read_exec_errno pipe from_raw (limit + 4) ≡ some e
      → parent_side ≡ in_parent (some (err e))
  unfolding spawn
  parent_side_report e report =
      let told = finish_parent_report k from_raw pipe (limit + 4) child e report h sees in
      grind arith

  -- Where the child is left with an errno before it becomes the command, the pipe takes at least a byte of
  -- what it is given and hands on what it took, in order, both cut as they may be and interrupted in
  -- the first `limit` calls at most, and the parent is told that the child has ended: the child exits
  -- with status 127 and `spawn` returns this errno as `Error::Exec`.
  pub exec_failure_reported :
      (e : Errno)
      → try_child c (argv0 ∷ rest) ≡ left e
      → IsI32 (as_raw e)
      → from_raw (as_raw e) ≡ e
      → Takes sink limit
      → Delivers pipe limit 4 (sent_by child_side)
      → (child_side ≡ exits exec_failure_exit (to_le_bytes (as_raw e)))
        × (parent_side ≡ in_parent (some (err (exec e))))
  unfolding run_child
  exec_failure_reported e fails_with i32 known takes delivers =
      let sends : write_all sink (limit + 4) 0 (to_le_bytes (as_raw e)) []
          ≡ (some (ok tt), to_le_bytes (as_raw e)) =
        write_all_sends sink limit takes (limit + 4) 0 (to_le_bytes (as_raw e)) [] (omega arith) in
      let ended : child_side ≡ exits exec_failure_exit (to_le_bytes (as_raw e)) =
        rw (fails_with, run_child) (rw sends refl) in
      let came = rw ended at delivers in
      let told = read_exec_errno_whole from_raw pipe limit (as_raw e) i32 came in
      (ended, parent_side_report (exec e) (told ∙ rw known refl))

  -- Where fewer than four bytes come, as from a child that is killed, `spawn` returns
  -- `Error::TraceeGone`.
  pub silent_end_reported :
      (bytes : List ℕ)
      → length bytes < 4
      → Delivers pipe limit 4 bytes
      → parent_side ≡ in_parent (some (err tracee_gone))
  silent_end_reported bytes short delivers =
      parent_side_report tracee_gone
        (read_exec_errno_short from_raw pipe limit bytes short delivers)
