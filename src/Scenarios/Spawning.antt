-- ===== src/Scenarios/Spawning.antt =====
-- The theorem on spawning at a kernel that lets the child exec.
use loi.Prelude.{
  ◌≡◌, refl, some, none, false, List, [], ◌∷◌, is_empty, if◌then◌else◌, zero, suc, ◌-◌, ◌==◌, take,
  drop, inl, inr, All, arith,
}
use loi.Prelude.Text.{Text, text}
use loi.Core.Spawn.Child.{Sink, ChildKernel}
use loi.Core.Spawn.Pipes.{Takes, Delivers}
use loi.Prelude.Map.{find}
use loi.Prelude.Int.{ℤ, pos, negsuc, int_eq}
use loi.Core.Types.{
  Errno, efault, enoent, eperm, eintr, exited, fails, sigstop, sigtrap, event_exec, stopped,
  ptrace_event, ptrace_syscall, done, other_signal,
}
use loi.Core.Tracee.{new_root}
use loi.Core.Kernel.{Kernel, wait_any, wait_for, set_options, cont, resume}
use loi.Core.Session.{Tracer, requested}
use loi.Core.Tracer.{with_follow_forks}
use loi.Core.Tracer.Pairing.{round}
use loi.Core.Spawn.{Pipe, finish_parent}
use loi.Core.Spawn.Ready.{begin, ComesBefore, spawned_first_stop_dropped}
use loi.Scenarios.Tracing.{root, name_of, kernel}

-- The child stops itself first, and then in its exec.
abbrev spawning : Kernel
spawning = record kernel {
  wait_for_reply =
      λ h p. done (if is_empty h then stopped p sigstop else ptrace_event p sigtrap event_exec);
}

abbrev silent : Pipe
silent n len = done []

abbrev any_errno : ℤ → Errno
any_errno n = efault

abbrev pub spawned : Tracer
spawned = record { root_pid = root; tracees = (root, new_root) ∷ []; follow_forks = false }

-- A signal comes before the stop.
signal_before : All (ComesBefore root) (stopped root (other_signal 10) ∷ [])
signal_before = (inr (other_signal 10, refl), tt)

spawned_first_stop_dropped_example :
    let s = begin spawned (finish_parent spawning any_errno silent 8 root []).1 in
    let before =
      round spawning name_of (stopped root (other_signal 10)) (requested (resume root none) s) in
    let after = round spawning name_of (ptrace_syscall root) before in
    (s.history ≡ wait_for root ∷ cont root ∷ set_options root ∷ wait_for root ∷ [])
    × (after.events ≡ before.events)
    × (after.history ≡ resume root none ∷ wait_any ∷ before.history)
    × (find root after.tracees ≡ some (record new_root { skip_next_syscall_stop = false }))
unfolding finish_parent with_follow_forks
spawned_first_stop_dropped_example =
    spawned_first_stop_dropped spawning any_errno silent 8 root [] name_of spawned false
      (stopped root (other_signal 10) ∷ []) refl signal_before

-- A child that stops itself, and exits with status 127.
abbrev pub failing : Kernel
failing = record kernel {
  wait_for_reply = λ h p. done (if is_empty h then stopped p sigstop else exited p (pos 127));
  options_reply = λ h p. done tt;
  cont_reply = λ h p. done tt;
}

-- There is no such command.
abbrev pub lost : ChildKernel
lost = record { traceme = done tt; raise_sigstop = done tt; execvp = λ a argv. some enoent }

abbrev pub raw_of : Errno → ℤ
raw_of enoent = pos 2
raw_of _ = pos 1

abbrev pub errno_of : ℤ → Errno
errno_of (pos n) = if n == 2 then enoent else eperm
errno_of (negsuc n) = eperm

-- A pipe that is interrupted once, and takes and hands on byte after byte.
abbrev pub slow_sink : Sink
slow_sink calls len = if calls == 0 then fails eintr else done 1

pub slow_sink-Takes : Takes slow_sink 1
slow_sink-Takes zero len = inr (omega arith, refl)
slow_sink-Takes (suc calls) len = inl (0, ground arith, omega arith)

abbrev pub slow_pipe : Pipe
slow_pipe calls want = done (take 1 (drop (4 - want) (2 ∷ 0 ∷ 0 ∷ 0 ∷ [])))

pub slow_pipe-Delivers : Delivers slow_pipe 1 4 (2 ∷ 0 ∷ 0 ∷ 0 ∷ [])
slow_pipe-Delivers calls before want size =
    let same : 4 - suc want ≡ before = omega arith in inl (0, rw same refl, omega arith)

abbrev pub no_such : List Text
no_such = text "nope" ∷ []
