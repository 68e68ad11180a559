-- ===== src/Cli/Formats.antt =====
-- The writers of crates/loi-output behind the sink of src/main.rs.
use loi.Prelude.{Option, none}
use loi.Prelude.Word.{Profile}
use loi.Output.{Json, ErrnoTable}
use loi.Output.Stream.{Stream, buffer}
use loi.Output.Style.{Colors, PrettyConfig}
use loi.Output.JsonLine.{Serde}
use loi.Output.JsonLine
use loi.Output.Pretty.{PrettyState}
use loi.Output.Pretty
use loi.Cli.{ErrorKind, Writer}

-- A writer of the standard library with its flush, and the kinds of its errors.
pub record Sink : Type 1 where
  pub io : Stream
  pub kind : io.Error → ErrorKind
  pub flush : io.Out → Option io.Error × io.Out

-- `Vec<u8>`
abbrev pub memory : (E : Type 0) → (E → ErrorKind) → Sink
memory E k = record { io = buffer E; kind = k; flush = λ o. (none, o) }

module _ (c : Colors) (j : Json) (profile : Profile) (table : ErrnoTable) where
  -- What both formatters do on a writer.
  abbrev pub formats : (sink : Sink) → Serde sink.io j → Writer
  formats sink serde = record {
    PrettyConfig = PrettyConfig;
    PrettyState = PrettyState;
    Out = sink.io.Out;
    Error = sink.io.Error;
    kind = sink.kind;
    write_pretty = λ ev decoded category cfg st o.
        Pretty.write_event sink.io c profile table ev decoded category cfg st o;
    write_json = λ ev decoded. JsonLine.write_event sink.io j serde profile table ev decoded;
    flush = sink.flush;
  }
