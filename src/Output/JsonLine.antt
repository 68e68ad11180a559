-- ===== src/Output/JsonLine.antt =====
-- crates/loi-output/src/json.rs: the line of an event, on a writer.
use loi.Prelude.{Option, none, some}
use loi.Prelude.Result.{ok, err, panic, map_err}
use loi.Prelude.Text.{text}
use loi.Prelude.Word.{Profile}
use loi.Core.Event.{SyscallEvent}
use loi.Syscalls.Decoder.{DecodedCall}
use loi.Output.{Json, ErrnoTable, event_to_json}
use loi.Output.Stream.{Stream, Writing, ◌>>◌, put, panics, returned}

-- What the source takes from `serde_json` to write a value, and from `io::Error` for the failures.
pub record Serde (io : Stream) (j : Json) : Type 1 where
  pub Failure : Type 0
  pub to_writer : j.Value → io.Out → Option Failure × io.Out
  pub other : Failure → io.Error
  pub invalid_data : io.Error

module _ (io : Stream) (j : Json) (serde : Serde io j) where
  abbrev pub put_value : j.Value → Writing io.Error io.Out
  put_value v o = (map_err serde.other (returned (serde.to_writer v o).0), (serde.to_writer v o).1)

  unfoldable pub write_event :
      Profile → ErrnoTable → SyscallEvent → DecodedCall → Writing io.Error io.Out
  write_event profile table ev decoded = elim (event_to_json j profile table ev decoded) [
    | ok none ↦ λ o. (err serde.invalid_data, o)
    | ok (some v) ↦ do put_value v; put io (text "\n")
    | err e ↦ panics
    | panic ↦ panics
  ]
