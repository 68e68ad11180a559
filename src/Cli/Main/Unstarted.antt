-- ===== src/Cli/Main/Unstarted.antt =====
-- A run of the whole program that starts no command (src/main.rs).
use loi.Prelude.{
  ℕ, ◌+◌, ◌≡◌, ◌≢◌, refl, ◌∙◌, any, false, Option, some, none, List, [], ◌∷◌, Bool, arith,
}
use loi.Prelude.Tests.{Eq}
use loi.Prelude.Int.{IsI32}
use loi.Prelude.Result.{ok, err, Result-cases}
use loi.Prelude.Text.{Text}
use loi.Prelude.Word.{Profile}
use loi.Core.Types.{Pid, Errno, Error, exec, done}
use loi.Core.Spawn.Child.{
  has_nul, try_child, left, exits, exec_failure_exit, to_le_bytes, ChildEnd, ForkResult,
  fork_parent, fork_child, in_child, in_parent, Spawned, spawn, run_child,
}
use loi.Core.Spawn.Pipes.{Takes, Delivers}
use loi.Core.Spawn.Reported.{SeesEnd, sent_by, exec_failure_reported}
use loi.Core.Kernel.{History}
use loi.Syscalls.Decoders.Processes.{Arch}
use loi.Syscalls.Registry.{Table, Registry, with_default_decoders}
use loi.Filter.{Globset, Filter, parse}
use loi.Output.{Json, ErrnoTable}
use loi.Output.Style.{Colors}
use loi.Output.JsonLine.{Serde}
use loi.Cli.{raw}
use loi.Cli.Stream.{OutputFormat-cases}
use loi.Cli.Formats
use loi.Cli.Main.{
  Cli, Machine, Failure, raw_not_implemented, invalid_filter, spawn_failed, Ending, ends,
  ends_child, launched, main,
}

-- The same machine on either side of the fork.
abbrev pub forked : Machine → ForkResult → Machine
forked m side = record m { pipe2 = done tt; fork = done side }

module _ {Sysno : Type 0} ⦃e : Eq Sysno⦄ (t : Table Sysno) (g : Globset) (c : Colors) (j : Json)
    (profile : Profile) (arch : Arch) (table : ErrnoTable) (stdout : Formats.Sink)
    (serde : Serde stdout.io j) where
  abbrev pub Failed : Type 0
  Failed = Failure t g c j profile arch table stdout serde

  -- Why the options are refused, if they are.
  abbrev pub refusal : Cli → Option Failed
  refusal cli = elim cli.output [
    | raw ↦ some raw_not_implemented
    | _ ↦ elim (parse g cli.syscall cli.fail cli.path) [
      | err failed ↦ some (invalid_filter failed)
      | _ ↦ none
    ]
  ]

  -- The program as the parent and the child of its fork.
  abbrev pub whole :
      Machine → ℕ → Cli → Bool → stdout.io.Out → Ending t g c j profile arch table stdout serde
  whole = main t g c j profile arch table stdout serde

  -- Options that are refused end the program with the reason, whatever it runs on.
  pub main_refuses :
      (m : Machine) (rounds : ℕ) (cli : Cli) (is_terminal : Bool) (out : stdout.io.Out)
      (failed : Failed)
      → refusal cli ≡ some failed
      → whole m rounds cli is_terminal out ≡ ends (err failed)
  unfolding main
  main_refuses m rounds cli is_terminal out failed refused =
      let parsed = Result-cases (parse g cli.syscall cli.fail cli.path) in
      ground (arith, OutputFormat-cases cli.output, parsed)

  launched_failed :
      (m : Machine) (rounds : ℕ) (cli : Cli) (is_terminal : Bool) (out : stdout.io.Out)
      (registry : Registry t) (filter : Filter g) (failed : Error) (r : Spawned × History)
      → r.0 ≡ in_parent (some (err failed))
      → launched t g c j profile arch table stdout serde m rounds cli is_terminal out registry
          filter r
        ≡ ends (err (spawn_failed failed))
  launched_failed m rounds cli is_terminal out registry filter failed r eq = rw (eq, launched) refl

  launched_child :
      (m : Machine) (rounds : ℕ) (cli : Cli) (is_terminal : Bool) (out : stdout.io.Out)
      (registry : Registry t) (filter : Filter g) (ended : ChildEnd) (r : Spawned × History)
      → r.0 ≡ in_child ended
      → launched t g c j profile arch table stdout serde m rounds cli is_terminal out registry
          filter r
        ≡ ends_child ended
  launched_child m rounds cli is_terminal out registry filter ended r eq = rw (eq, launched) refl

  -- What follows the options that are understood.
  main-launched :
      (m : Machine) (rounds : ℕ) (cli : Cli) (is_terminal : Bool) (out : stdout.io.Out)
      (filter : Filter g) (registry : Registry t)
      → cli.output ≢ raw
      → parse g cli.syscall cli.fail cli.path ≡ ok filter
      → with_default_decoders t profile arch ≡ ok registry
      → whole m rounds cli is_terminal out
        ≡ launched t g c j profile arch table stdout serde m rounds cli is_terminal out registry
            filter
            (spawn m.kernel m.from_raw m.pipe m.child m.as_raw m.sink rounds m.pipe2 m.fork
              cli.command [])
  unfolding main
  main-launched m rounds cli is_terminal out filter registry known parsed wired =
      ground (arith, OutputFormat-cases cli.output)

  -- Where the options are understood, no word of the command holds a zero byte and it cannot be
  -- executed, with an errno that an i32 holds and gives back, over a pipe that takes at least a byte of
  -- what it is given and hands on what it took, in order, both cut as they may be and interrupted in the
  -- first `limit` calls at most, and the parent is told that the child has ended: the child exits with
  -- status 127, and the program ends with this errno of the exec.
  pub main_exec_failure :
      (m : Machine) (limit : ℕ) (cli : Cli) (is_terminal : Bool) (out : stdout.io.Out)
      (filter : Filter g) (registry : Registry t) (child : Pid) (argv0 : Text) (rest : List Text)
      (failing : Errno)
      → cli.output ≢ raw
      → parse g cli.syscall cli.fail cli.path ≡ ok filter
      → with_default_decoders t profile arch ≡ ok registry
      → cli.command ≡ argv0 ∷ rest
      → any has_nul (argv0 ∷ rest) ≡ false
      → SeesEnd m.kernel child []
      → try_child m.child (argv0 ∷ rest) ≡ left failing
      → IsI32 (m.as_raw failing)
      → m.from_raw (m.as_raw failing) ≡ failing
      → Takes m.sink limit
      → Delivers m.pipe limit 4
          (sent_by (run_child m.child m.as_raw m.sink (limit + 4) (argv0 ∷ rest)))
      → (whole (forked m fork_child) (limit + 4) cli is_terminal out
          ≡ ends_child (exits exec_failure_exit (to_le_bytes (m.as_raw failing))))
        × (whole (forked m (fork_parent child)) (limit + 4) cli is_terminal out
            ≡ ends (err (spawn_failed (exec failing))))
  unfolding spawn
  main_exec_failure m limit cli is_terminal out filter registry child argv0 rest failing known
        parsed wired command no_nul sees fails i32 back takes delivers =
      let (exited, reported) =
        exec_failure_reported m.kernel m.from_raw m.pipe m.child m.as_raw m.sink limit child []
          argv0 rest no_nul sees failing fails i32 back takes delivers in
      let start = λ (side : ForkResult).
        main-launched (forked m side) (limit + 4) cli is_terminal out filter registry known parsed
          wired in
      (
        start fork_child
            ∙ launched_child (forked m fork_child) (limit + 4) cli is_terminal out registry filter
                (exits exec_failure_exit (to_le_bytes (m.as_raw failing))) _
                (rw (command, spawn) (rw (no_nul, spawn) (rw exited refl))),
        start (fork_parent child)
            ∙ launched_failed (forked m (fork_parent child)) (limit + 4) cli is_terminal out
                registry filter (exec failing) _ (rw command reported),
      )
