-- ===== src/Cli/Main.antt =====
-- `main` (src/main.rs): the options, the tracer and the sink put together.
pub mod Printed
pub mod Root
pub mod Unstarted
pub mod OneEach
pub mod Objects
use loi.Prelude.{ℕ, suc, ◌&&◌, not, Option, none, some, List, [], ◌∷◌, Bool, true, false}
use loi.Prelude.Tests.{Eq}
use loi.Prelude.Int.{ℤ}
use loi.Prelude.Result.{NoError, Result, ok, err, panic}
use loi.Prelude.Text.{Text}
use loi.Prelude.Word.{Profile}
use loi.Core.Types.{Errno, Error, Reply}
use loi.Core.Event.{SyscallEvent}
use loi.Core.Kernel.{Kernel, History}
use loi.Core.Session.{Tracer, Session}
use loi.Core.Tracer.{Progress, with_follow_forks, running, finished, run}
use loi.Core.Spawn.{Pipe}
use loi.Core.Spawn.Child.{
  Sink, ChildKernel, ChildEnd, ForkResult, Spawned, in_child, in_parent, spawn,
}
use loi.Syscalls.Decoder.{Host}
use loi.Syscalls.Decoders.Processes.{Arch}
use loi.Syscalls.Registry.{Table, Registry, name, with_default_decoders}
use loi.Filter.{Globset, FilterError, Filter, parse}
use loi.Output.{Json, ErrnoTable}
use loi.Output.Style.{
  Colors, PrettyConfig, config_new, with_category_colors, with_dim_lookups, with_group_lookups,
}
use loi.Output.JsonLine.{Serde}
use loi.Output.Pretty.{state_new}
use loi.Cli.{OutputFormat, pretty, json, raw, Writer, SinkState, handle_all, finish}
use loi.Cli.Formats
use loi.Cli.Formats.{formats}

-- The options, as the crate `clap` has parsed them.
pub record Cli : Type 0 where
  pub command : List Text
  pub output : OutputFormat
  pub syscall : Option Text
  pub fail : Bool
  pub path : Option Text
  pub follow_forks : Bool
  pub no_category_colors : Bool
  pub no_dim_lookups : Bool
  pub no_group_lookups : Bool

-- `cli.output == OutputFormat::Pretty`
abbrev pub is_pretty : OutputFormat → Bool
is_pretty pretty = true
is_pretty _ = false

unfoldable pub pretty_config : Cli → Bool → PrettyConfig
pretty_config cli is_terminal = with_group_lookups (not cli.no_group_lookups) (
    with_dim_lookups (not cli.no_dim_lookups) (
      with_category_colors (not cli.no_category_colors)
        (config_new (is_pretty cli.output && is_terminal))))

-- What runs under the program: the kernel on both sides of the fork, and the memory of the processes
-- at each event.
pub record Machine : Type 0 where
  pub kernel : Kernel
  pub from_raw : ℤ → Errno
  pub as_raw : Errno → ℤ
  pub pipe : Pipe
  pub sink : Sink
  pub child : ChildKernel
  pub pipe2 : Reply (Unit {0})
  pub fork : Reply ForkResult
  pub memory : ℕ → Host

-- The events in order, each with the memory at its time.
abbrev pub observed : (ℕ → Host) → ℕ → List SyscallEvent → List (Host × SyscallEvent)
observed memory n [] = []
observed memory n (ev ∷ evs) = (memory n, ev) ∷ observed memory (suc n) evs

module _ {Sysno : Type 0} ⦃e : Eq Sysno⦄ (t : Table Sysno) (g : Globset) (c : Colors) (j : Json)
    (profile : Profile) (arch : Arch) (table : ErrnoTable) (stdout : Formats.Sink)
    (serde : Serde stdout.io j) where
  abbrev pub out_writer : Writer
  out_writer = formats c j profile table stdout serde

  -- The error that `main` ends with.
  pub data Failure : Type 0 where
    raw_not_implemented : Failure
    invalid_filter : FilterError g → Failure
    spawn_failed : Error → Failure
    trace_failed : Error → Failure
    write_failed : stdout.io.Error → Failure

  -- How `main` ends: with a result and what was written, as a panic, in the child, or not within the
  -- rounds given.
  pub data Ending : Type 0 where
    ends : Result Failure stdout.io.Out → Ending
    ends_child : ChildEnd → Ending
    unfinished : Ending

  abbrev pub sink_new :
      Cli → Bool → stdout.io.Out → Registry t → Filter g → SinkState t g out_writer
  sink_new cli is_terminal out registry filter = record {
    out = out;
    format = cli.output;
    cfg = pretty_config cli is_terminal;
    pretty_state = state_new;
    registry = registry;
    filter = filter;
    first_err = none;
    closed = false;
  }

  -- `state.finish()`
  abbrev pub finished_with : SinkState t g out_writer → Ending
  finished_with s = elim (finish t g out_writer s) [
    | ok out ↦ ends (ok out)
    | err failed ↦ ends (err (write_failed failed))
    | panic ↦ ends panic
  ]

  -- What follows `run`, where the closure got through all the events.
  abbrev pub after_run : Progress → SinkState t g out_writer → Ending
  after_run running s = unfinished
  after_run (finished (ok u)) s = finished_with s
  after_run (finished (err failed)) s = ends (err (trace_failed failed))
  after_run (finished panic) s = ends panic

  -- The closure may panic at an event before the loop ends.
  abbrev pub observed_run : Machine → Progress × Session → SinkState t g out_writer → Ending
  observed_run m (progress, session) s =
      elim (handle_all t g out_writer (observed m.memory 0 session.events) s) [
        | ok s' ↦ after_run progress s'
        | err never ↦ ends panic
        | panic ↦ ends panic
      ]

  -- `tracer.run(|ev| state.handle(ev))`
  abbrev pub traced : Machine → ℕ → Tracer → History → SinkState t g out_writer → Ending
  traced m rounds tracer h s =
      observed_run m
        (run m.kernel (name t) rounds (record { tracer = tracer; history = h; events = [] })) s

  abbrev pub launched :
      Machine → ℕ → Cli → Bool → stdout.io.Out → Registry t → Filter g → Spawned × History → Ending
  launched m rounds cli is_terminal out registry filter (in_child child, h) = ends_child child
  launched m rounds cli is_terminal out registry filter (in_parent none, h) = unfinished
  launched m rounds cli is_terminal out registry filter (in_parent (some (err failed)), h) =
      ends (err (spawn_failed failed))
  launched m rounds cli is_terminal out registry filter (in_parent (some panic), h) = ends panic
  launched m rounds cli is_terminal out registry filter (in_parent (some (ok tracer)), h) =
      traced m rounds (with_follow_forks cli.follow_forks tracer) h
        (sink_new cli is_terminal out registry filter)

  -- After the check of the format.
  abbrev pub checked : Machine → ℕ → Cli → Bool → stdout.io.Out → Ending
  checked m rounds cli is_terminal out = elim (parse g cli.syscall cli.fail cli.path) [
    | err failed ↦ ends (err (invalid_filter failed))
    | panic ↦ ends panic
    | ok filter ↦ elim (with_default_decoders t profile arch) [
      | err never ↦ ends panic
      | panic ↦ ends panic
      | ok registry ↦ launched m rounds cli is_terminal out registry filter (
          spawn m.kernel m.from_raw m.pipe m.child m.as_raw m.sink rounds m.pipe2 m.fork cli.command
            [])
    ]
  ]

  unfoldable pub main : Machine → ℕ → Cli → Bool → stdout.io.Out → Ending
  main m rounds cli is_terminal out = elim cli.output [
    | raw ↦ ends (err raw_not_implemented)
    | pretty ↦ checked m rounds cli is_terminal out
    | json ↦ checked m rounds cli is_terminal out
  ]
