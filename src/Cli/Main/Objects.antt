-- ===== src/Cli/Main/Objects.antt =====
-- What a run of the whole program prints in the format JSON.
use loi.Prelude.{◌^◌, ◌<◌, ◌≡◌, none, ◌++◌}
use loi.Prelude.Tests.{Eq}
use loi.Prelude.Text.{Text}
use loi.Prelude.Word.{Profile}
use loi.Core.Session.{Tracer, Session}
use loi.Syscalls.Decoders.Processes.{Arch}
use loi.Syscalls.Registry.{Table, Registry}
use loi.Filter.{Globset, Filter}
use loi.Output.{Json, ErrnoTable}
use loi.Output.Objects.{described}
use loi.Output.Stream.{buffer}
use loi.Output.Style.{Colors}
use loi.Output.JsonLine.{Serde}
use loi.Output.Pretty.Lines.{Call}
use loi.Cli.{ErrorKind}
use loi.Cli.Main.{Cli}

-- A duration that 64 bits hold.
abbrev pub IsTimed : Call → Type 0
IsTimed call = call.0.duration < 2 ^ 64

module _ {Sysno : Type 0} ⦃e : Eq Sysno⦄ (t : Table Sysno) (g : Globset) (c : Colors) (j : Json)
    (profile : Profile) (arch : Arch) (table : ErrnoTable) (E : Type 0) (kind_of : E → ErrorKind)
    (serde : Serde (buffer E) j) (render : j.Value → Text)
    (renders : (v : j.Value) (o : Text) → serde.to_writer v o ≡ (none, o ++ render v)) where
  -- The text of the object of a call.
  abbrev pub object_line : Call → Text
  object_line call = render (described j table call.0 call.1)
