-- ===== src/Scenarios/Unstarted.antt =====
-- The theorems on runs that start no command (src/main.rs), at refused options and a missing command.
use loi.Prelude.{◌≡◌, refl, inr, none, some, false, [], ◌∷◌, arith}
use loi.Prelude.Tests.{nat_eq}
use loi.Prelude.Int.{pos}
use loi.Prelude.Result.{ok, err}
use loi.Prelude.Text.{text}
use loi.Prelude.Word.{dev}
use loi.Core.Types.{enoent, exec, exited}
use loi.Core.Spawn.Child.{fork_parent, fork_child, exits, try_child, run_child, write_all}
use loi.Syscalls.Decoders.Processes
use loi.Syscalls.Registry.{
  with_default_decoders, add_all, add, sysno_id_u64, register, sysno_from_nr,
}
use loi.Filter.{parse, compile_globs}
use loi.Cli.{ErrorKind}
use loi.Cli.Formats.{memory}
use loi.Cli.Main.{Cli, spawn_failed, ends, ends_child, main}
use loi.Cli.Main.Unstarted.{forked, main_exec_failure}
use loi.Scenarios.Tracing.{root}
use loi.Scenarios.Filtering.{numbers, literal_globs}
use loi.Scenarios.Output.{errnos}
use loi.Scenarios.Spawning.{failing, no_such, slow_sink-Takes, slow_pipe-Delivers}
use loi.Scenarios.Pretty.{no_colors, no_json, serde}
use loi.Scenarios.Printing.{machine, options}

-- A pattern that is no glob.
abbrev bracket : Cli
bracket = record options { syscall = some (text "[") }

abbrev missing : Cli
missing = record options { command = no_such }

main_exec_failure_example :
    (main numbers literal_globs no_colors no_json dev Processes.x86_64 errnos
        (memory ErrorKind (λ k. k))
        serde
        (forked (record machine { kernel = failing }) fork_child)
        5
        missing
        false
        []
      ≡ ends_child (exits (pos 127) (2 ∷ 0 ∷ 0 ∷ 0 ∷ [])))
    × (main numbers literal_globs no_colors no_json dev Processes.x86_64 errnos
          (memory ErrorKind (λ k. k))
          serde
          (forked (record machine { kernel = failing }) (fork_parent root))
          5
          missing
          false
          []
        ≡ ends (err (spawn_failed (exec enoent))))
unfolding parse compile_globs with_default_decoders add_all add sysno_id_u64 register sysno_from_nr
    try_child run_child write_all
main_exec_failure_example =
    main_exec_failure numbers literal_globs no_colors no_json dev Processes.x86_64 errnos
      (memory ErrorKind (λ k. k)) serde (record machine { kernel = failing }) 1 missing false []
      (record { syscalls = none; only_fail = false; paths = none })
      (elim (with_default_decoders numbers dev Processes.x86_64) [ ok r ↦ r | _ ↦ [] ]) root
      (text "nope") [] enoent (λ h. cc) refl refl refl refl
      (inr (refl, refl, refl, (exited root (pos 127), refl, tt))) refl (omega arith) refl
      slow_sink-Takes slow_pipe-Delivers
