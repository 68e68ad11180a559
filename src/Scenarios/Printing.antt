-- ===== src/Scenarios/Printing.antt =====
-- The theorem on the whole program (src/main.rs) at a command that makes one call.
use loi.Prelude.{All, ℕ, ◌≡◌, refl, none, false, List, [], ◌∷◌, is_empty, ◌==◌, if◌then◌else◌}
use loi.Prelude.Tests.{nat_eq}
use loi.Prelude.Int.{pos}
use loi.Prelude.Result.{ok}
use loi.Prelude.Text.{text}
use loi.Prelude.Word.{dev}
use loi.Core.Types.{
  echild, sigstop, sigtrap, event_exec, WaitStatus, ptrace_syscall, stopped, ptrace_event, exited,
  Reply, done, fails,
}
use loi.Core.Regs.{x86_64}
use loi.Core.Event.{SyscallEvent}
use loi.Core.Kernel.{Kernel, History}
use loi.Core.Session.{Session}
use loi.Prelude.Print.{decimal_ℤ}
use loi.Output.{lookup_basename, is_path_lookup}
use loi.Output.Style.{config_new, with_category_colors, with_dim_lookups, with_group_lookups}
use loi.Output.Escape.{chars_from}
use loi.Output.Render.{render_arg_text}
use loi.Output.Duration.{fmt_duration}
use loi.Core.Regs.{extract_entry, extract_ret}
use loi.Core.Event.{new}
use loi.Prelude.Int.{eq_ℤ}
use loi.Prelude.Map.{find, insert, remove}
use loi.Core.Tracer.{
  run, drive, tick, with_follow_forks, handle_status, handle_syscall_stop, tracee_of, entry_or_new,
  syscall_name,
}
use loi.Core.Spawn.{finish_parent}
use loi.Core.Tracer.Ending.{waits}
use loi.Core.Spawn.Child.{Spawned, spawn, fork_parent}
use loi.Core.Spawn.Ready.{begin}
use loi.Syscalls.Decoders.Processes
use loi.Syscalls.Registry.{
  name, with_default_decoders, add_all, add, sysno_id_u64, register, sysno_from_nr, decoder,
}
use loi.Filter.{parse, compile_globs, matches_event, matches_decoded}
use loi.Output.Pretty.Lines.{Call}
use loi.Cli.{pretty, ErrorKind, decode, fallback_decoded}
use loi.Cli.Formats.{memory, formats}
use loi.Cli.Main.Root.{shows_root_only}
use loi.Cli.Main.{Cli, pretty_config, Machine}
use loi.Scenarios.Host.{host}
use loi.Scenarios.Tracing.{root, kernel}
use loi.Scenarios.Filtering.{numbers, literal_globs}
use loi.Scenarios.Output.{errnos}
use loi.Scenarios.Spawning.{lost, raw_of, errno_of, slow_sink, slow_pipe, spawned}
use loi.Scenarios.Pretty.{no_colors, no_json, serde}

-- The command stops at the exit of its execve, at the entry and at the exit of one call, and ends.
abbrev stop_after : ℕ → Reply WaitStatus
stop_after n =
    if n == 3
    then done (exited root (pos 0))
    else if n == 4
    then fails echild
    else done (ptrace_syscall root)

abbrev pub lets_run : Kernel
lets_run = record kernel {
  wait_any_reply = λ h. stop_after (waits h);
  wait_for_reply =
      λ h p. done (if is_empty h then stopped p sigstop else ptrace_event p sigtrap event_exec);
  regs_reply = λ h p. done (
      x86_64
        (record { rax = 7; orig_rax = 39; rdi = 2; rsi = 4096; rdx = 8; r10 = 0; r8 = 0; r9 = 0 }));
}

abbrev pub machine : Machine
machine = record {
  kernel = lets_run;
  from_raw = errno_of;
  as_raw = raw_of;
  pipe = slow_pipe;
  sink = slow_sink;
  child = lost;
  pipe2 = done tt;
  fork = done (fork_parent root);
  memory = λ n. host;
}

abbrev pub options : Cli
options = record {
  command = text "true" ∷ [];
  output = pretty;
  syscall = none;
  fail = false;
  path = none;
  follow_forks = false;
  no_category_colors = false;
  no_dim_lookups = false;
  no_group_lookups = false;
}

abbrev pub shown_call : SyscallEvent
shown_call = record {
  pid = root;
  syscall_nr = 39;
  syscall_name = text "other";
  args = record { arg0 = 2; arg1 = 4096; arg2 = 8; arg3 = 0; arg4 = 0; arg5 = 0 };
  ret = pos 7;
  duration = 4;
}

abbrev pub shown_calls : List Call
shown_calls = (shown_call, fallback_decoded shown_call, none) ∷ []

-- The tracer that spawning returns, with the requests so far, and the end of its run.
abbrev pub after_spawn : Spawned × History
after_spawn =
    spawn lets_run errno_of slow_pipe lost raw_of slow_sink 8 (done tt) (done (fork_parent root))
      options.command []

abbrev pub after_run : Session
after_run = (run lets_run (name numbers) 8 (begin spawned after_spawn.1)).1

shows_root_only_example : All (λ call. call.0.pid ≡ root) shown_calls
unfolding parse compile_globs with_default_decoders add_all add sysno_id_u64 register sysno_from_nr
    spawn finish_parent run drive tick with_follow_forks handle_status handle_syscall_stop tracee_of
    entry_or_new extract_entry extract_ret new find insert remove eq_ℤ syscall_name name decode
    decoder fallback_decoded matches_event matches_decoded pretty_config with_group_lookups
    lookup_basename is_path_lookup decimal_ℤ with_dim_lookups with_category_colors config_new
    chars_from render_arg_text fmt_duration
shows_root_only_example =
    shows_root_only numbers literal_globs
      (formats no_colors no_json dev errnos (memory ErrorKind (λ k. k)) serde) machine 8 options
      (elim (with_default_decoders numbers dev Processes.x86_64) [ ok r ↦ r | _ ↦ [] ])
      (record { syscalls = none; only_fail = false; paths = none }) spawned after_spawn.1
      shown_calls refl refl
