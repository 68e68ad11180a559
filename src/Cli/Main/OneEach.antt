-- ===== src/Cli/Main/OneEach.antt =====
-- A run of the whole program prints one line for each call.
use loi.Prelude.{All}
use loi.Prelude.Text.{Text}
use loi.Core.Session.{Tracer, Session}
use loi.Core.Tracer.{syscall_name}
use loi.Syscalls.Registry.{Registry}
use loi.Filter.{Filter}
use loi.Output.Clean.{IsClean, HasCleanNames}
use loi.Output.Pretty.Lines.{Call}
use loi.Cli.Main.{Cli}

-- What is known of a call by its event and its decoding.
abbrev HasCleanTexts : Call → Type 0
HasCleanTexts call = IsClean call.0.syscall_name × All (λ a. HasCleanNames a.1) call.1.args
