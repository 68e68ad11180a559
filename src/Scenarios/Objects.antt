-- ===== src/Scenarios/Objects.antt =====
-- The theorem on the whole program in the format JSON (src/main.rs), at a command that makes one call.
use loi.Prelude.{none, ◌++◌}
use loi.Prelude.Tests.{nat_eq}
use loi.Prelude.Result.{NoError}
use loi.Prelude.Text.{Text, text}
use loi.Syscalls.Decoders.Processes
use loi.Output.JsonLine.{Serde}
use loi.Output.Stream.{buffer}
use loi.Cli.{ErrorKind, other}
use loi.Scenarios.Compact.{compact}

abbrev appending : Serde (buffer ErrorKind) compact
appending = record {
  Failure = NoError;
  to_writer = λ v o. (none, o ++ v);
  other = λ f. elim f [ ];
  invalid_data = other;
}

-- The arguments are the registers: there is no decoder for the number.
abbrev line : Text
line =
    text "{\"args\":[{\"name\":\"arg0\",\"value\":2},{\"name\":\"arg1\",\"value\":4096},"
    ++ (text "{\"name\":\"arg2\",\"value\":8},{\"name\":\"arg3\",\"value\":0},"
        ++ (text "{\"name\":\"arg4\",\"value\":0},{\"name\":\"arg5\",\"value\":0}],"
            ++ (text "\"duration\":4,\"pid\":100,\"ret\":7,"
                ++ text "\"syscall_name\":\"other\",\"syscall_nr\":39}\n")))
