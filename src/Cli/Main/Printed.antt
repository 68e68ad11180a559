-- ===== src/Cli/Main/Printed.antt =====
-- What a run of the whole program prints.
use loi.Prelude.{ℕ, ◌≡◌, refl, ◌∙◌, ◌⊎◌, inl, inr, some, [], Bool, arith}
use loi.Prelude.Tests.{Eq}
use loi.Prelude.Result.{ok}
use loi.Prelude.Text.{Text}
use loi.Prelude.Word.{Profile}
use loi.Core.Kernel.{History}
use loi.Core.Session.{Tracer, Session}
use loi.Core.Tracer.{with_follow_forks, finished, run}
use loi.Core.Spawn.Ready.{begin}
use loi.Core.Spawn.Child.{in_parent, spawn}
use loi.Syscalls.Decoders.Processes.{Arch}
use loi.Syscalls.Registry.{Table, Registry, name, with_default_decoders}
use loi.Filter.{Globset, Filter, parse}
use loi.Output.{Json, ErrnoTable}
use loi.Output.Stream.{buffer}
use loi.Output.Style.{Colors}
use loi.Output.JsonLine.{Serde}
use loi.Cli.{ErrorKind, pretty, json, handle_all}
use loi.Cli.Formats.{memory, formats}
use loi.Cli.Shown.{Sunk}
use loi.Cli.Main.{
  Cli, Machine, observed, sink_new, checked, traced, observed_run, finished_with, main,
}

module _ {Sysno : Type 0} ⦃e : Eq Sysno⦄ (t : Table Sysno) (g : Globset) (c : Colors) (j : Json)
    (profile : Profile) (arch : Arch) (table : ErrnoTable) (E : Type 0) (kind_of : E → ErrorKind)
    (serde : Serde (buffer E) j) where
  main-checked :
      (m : Machine) (rounds : ℕ) (cli : Cli) (is_terminal : Bool) (out : Text)
      → (cli.output ≡ pretty) ⊎ (cli.output ≡ json)
      → main t g c j profile arch table (memory E kind_of) serde m rounds cli is_terminal out
        ≡ checked t g c j profile arch table (memory E kind_of) serde m rounds cli is_terminal out
  unfolding main
  main-checked m rounds cli is_terminal out (inl pr) = grind arith
  main-checked m rounds cli is_terminal out (inr js) = grind arith

  -- A run that nothing stops ends as the sink does that was handed every event.
  pub main-finished_with :
      (m : Machine) (rounds : ℕ) (cli : Cli) (filter : Filter g) (registry : Registry t)
      (tracer : Tracer) (history : History) (session : Session) (is_terminal : Bool)
      (last : Sunk t g c j profile table E kind_of serde)
      → (cli.output ≡ pretty) ⊎ (cli.output ≡ json)
      → parse g cli.syscall cli.fail cli.path ≡ ok filter
      → with_default_decoders t profile arch ≡ ok registry
      → spawn m.kernel m.from_raw m.pipe m.child m.as_raw m.sink rounds m.pipe2 m.fork cli.command
          []
        ≡ (in_parent (some (ok tracer)), history)
      → run m.kernel (name t) rounds (begin (with_follow_forks cli.follow_forks tracer) history)
        ≡ (finished (ok tt), session)
      → handle_all t g
          (formats c j profile table (memory E kind_of) serde)
          (observed m.memory 0 session.events)
          (sink_new t g c j profile arch table
            (memory E kind_of)
            serde
            cli
            is_terminal
            []
            registry
            filter)
        ≡ ok last
      → main t g c j profile arch table (memory E kind_of) serde m rounds cli is_terminal []
        ≡ finished_with t g c j profile arch table (memory E kind_of) serde last
  main-finished_with m rounds cli filter registry tracer history session is_terminal last format
        parsed wired started traced_all handled =
      main-checked m rounds cli is_terminal [] format
      ∙ rw (parsed, checked)
          (rw (wired, checked)
            (rw (started, checked) (rw (traced_all, traced) (rw (handled, observed_run) refl))))
