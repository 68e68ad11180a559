-- ===== src/Scenarios/Tracing.antt =====
-- The theorems of the tracer at a small run of crates/loi-core.
use loi.Prelude.{
  ℕ, ◌≤◌, ◌≡◌, refl, ◌≢◌, Option, some, none, false, List, [], ◌∷◌, length, ◌==◌, if◌then◌else◌,
  arith,
}
use loi.Prelude.Map.{find, insert, remove}
use loi.Prelude.Int.{pos, int_eq, eq_ℤ}
use loi.Prelude.Result.{Result, ok}
use loi.Prelude.Text.{Text, text}
use loi.Core.Types.{
  Pid, echild, Error, sigstop, sigtrap, event_exec, WaitStatus, ptrace_syscall, stopped,
  ptrace_event, exited, Reply, done, fails,
}
use loi.Core.Regs.{Args, UserRegs, x86_64, extract_entry, extract_ret}
use loi.Core.Tracee.{entry, Tracee, new_child}
use loi.Core.Event.{new}
use loi.Core.Kernel.{Kernel, History, wait_any, resume}
use loi.Core.Session.{Session}
use loi.Core.Tracer.{
  handle_status, handle_syscall_stop, handle_event, handle_signal, entry_or_new, tracee_of,
  syscall_name, finished, run, drive, tick, drop_tracer,
}
use loi.Core.Tracer.Frame.{find-handle_status_ne}
use loi.Core.Tracer.Emission.{Reports, run-Reports}
use loi.Core.Tracer.Pairing.{round, rounds, AreOthers, of_process, between, entry_exit_pairing}
use loi.Core.Tracer.Stops.{
  initial_sigstop_once, exec_skips_one_stop, resumed, handle_status_resumes,
}
use loi.Core.Tracer.Ending.{waits, run_ends, detached, drop-after-ok}

abbrev pub root : Pid
root = pos 100

abbrev child : Pid
child = pos 101

-- `write` is called, and its result is how many requests were made before.
abbrev pub regs_at : ℕ → UserRegs
regs_at n =
    x86_64 (record { rax = n; orig_rax = 1; rdi = 2; rsi = 4096; rdx = 8; r10 = 0; r8 = 0; r9 = 0 })

abbrev write_args : Args
write_args = record { arg0 = 2; arg1 = 4096; arg2 = 8; arg3 = 0; arg4 = 0; arg5 = 0 }

abbrev pub name_of : ℕ → Option Text
name_of nr = if nr == 1 then some (text "write") else none

-- The statuses that the kernel reports, by the number of waits before.
abbrev status_after : ℕ → Reply WaitStatus
status_after n =
    if n == 0
    then done (ptrace_syscall root)
    else if n == 1
    then done (ptrace_syscall root)
    else if n == 2
    then done (exited root (pos 0))
    else fails echild

-- A clock that ticks with each request.
abbrev pub kernel : Kernel
kernel = record {
  wait_any_reply = λ h. status_after (waits h);
  wait_for_reply = λ h p. fails echild;
  resume_reply = λ h p sig. done tt;
  regs_reply = λ h p. done (regs_at (length h));
  event_reply = λ h p. done (pos 101);
  clock_reply = λ h. length h;
  options_reply = λ h p. done tt;
  cont_reply = λ h p. done tt;
  detach_reply = λ h p sig. done tt;
}

abbrev idle : Tracee
idle = record { phase = entry; awaiting_initial_sigstop = false; skip_next_syscall_stop = false }

abbrev start : Session
start = record {
  tracer = record {
    root_pid = root;
    tracees = (root, idle) ∷ (child, new_child) ∷ [];
    follow_forks = false;
  };
  history = [];
  events = [];
}

abbrev others : List WaitStatus
others = stopped child sigstop ∷ []

child_apart : some child ≢ some root
child_apart e = grind arith

others_apart : AreOthers root others
others_apart = (child_apart, tt)

entry_exit_pairing_example :
    let after =
      round kernel name_of (ptrace_syscall root) (between kernel name_of root others start) in
    (of_process root after.events ≡ new root 1 (text "write") write_args (pos 7) 6 ∷ [])
    × (after.events ≡ new root 1 (text "write") write_args (pos 7) 6 ∷ [])
    × (find root after.tracees ≡ some idle)
unfolding handle_status handle_syscall_stop handle_event handle_signal tracee_of entry_or_new
    extract_entry extract_ret new find insert eq_ℤ syscall_name
entry_exit_pairing_example =
    entry_exit_pairing kernel name_of root start idle others (regs_at 1) (regs_at 7) refl refl refl
      others_apart refl refl

-- At the start the tracer has reported nothing.
start-Reports : Reports root false start
start-Reports = record { same_root = refl; same_follow = refl; reportable = tt }

run-Reports_example : Reports root false (run kernel name_of 5 start).1
run-Reports_example = run-Reports kernel name_of root false 5 start start-Reports

exec_skips_one_stop_example :
    let before =
      rounds kernel name_of others
        (round kernel name_of (ptrace_event root sigtrap event_exec) start) in
    let after = round kernel name_of (ptrace_syscall root) before in
    (of_process root after.events ≡ [])
    × (after.events ≡ [])
    × (after.history ≡ resume root none ∷ wait_any ∷ before.history)
    × (find root after.tracees ≡ some idle)
unfolding handle_status handle_syscall_stop handle_event handle_signal tracee_of entry_or_new
    extract_entry extract_ret new find insert eq_ℤ syscall_name run drive tick remove drop_tracer
exec_skips_one_stop_example =
    exec_skips_one_stop kernel name_of root start idle others refl others_apart

root_apart : some root ≢ some child
root_apart e = grind arith

initial_sigstop_once_example :
    let first = round kernel name_of (stopped child sigstop) start in
    let between_stops = rounds kernel name_of (ptrace_syscall root ∷ []) first in
    let second = round kernel name_of (stopped child sigstop) between_stops in
    (first.history ≡ resume child none ∷ wait_any ∷ [])
    × (second.history ≡ resume child (some sigstop) ∷ wait_any ∷ between_stops.history)
unfolding handle_status handle_syscall_stop handle_event handle_signal tracee_of entry_or_new
    extract_entry extract_ret new find insert eq_ℤ syscall_name run drive tick remove drop_tracer
initial_sigstop_once_example =
    initial_sigstop_once kernel name_of child start (ptrace_syscall root ∷ []) refl (root_apart, tt)

handle_status_resumes_example :
    resumed (handle_status kernel name_of (ptrace_syscall root) start).1.history ≡ root ∷ []
unfolding handle_status handle_syscall_stop handle_event handle_signal tracee_of entry_or_new
    extract_entry extract_ret new find insert eq_ℤ syscall_name run drive tick remove drop_tracer
handle_status_resumes_example =
    handle_status_resumes kernel name_of (ptrace_syscall root) start refl

find-handle_status_ne_example :
    find root (handle_status kernel name_of (stopped child sigstop) start).1.tracees ≡ some idle
unfolding handle_status handle_syscall_stop handle_event handle_signal tracee_of entry_or_new
    extract_entry extract_ret new find insert eq_ℤ syscall_name run drive tick remove drop_tracer
find-handle_status_ne_example =
    find-handle_status_ne kernel name_of start (stopped child sigstop) root idle refl child_apart

gone_after_three : (h : History) → 3 ≤ waits h → kernel.wait_any_reply h ≡ fails echild
gone_after_three h le = ground arith

run_ends_example : (r : Result Error (Unit {0})) × ((run kernel name_of 4 start).0 ≡ finished r)
run_ends_example = run_ends kernel name_of 3 start gone_after_three refl

-- The root is gone and the kernel says that no child is left.
abbrev orphaned : Session
orphaned = record start {
  tracer = record start.tracer { tracees = (child, new_child) ∷ [] };
  history = wait_any ∷ wait_any ∷ wait_any ∷ [];
}

drop-after-ok_example :
    ((tick kernel name_of orphaned).0 ≡ finished (ok tt))
    × (detached (drop_tracer (tick kernel name_of orphaned).1).history ≡ child ∷ [])
unfolding handle_status handle_syscall_stop handle_event handle_signal tracee_of entry_or_new
    extract_entry extract_ret new find insert eq_ℤ syscall_name run drive tick remove drop_tracer
drop-after-ok_example = drop-after-ok kernel name_of orphaned refl refl refl
