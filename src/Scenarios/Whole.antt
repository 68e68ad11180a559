-- ===== src/Scenarios/Whole.antt =====
-- The theorems on typed calls and on one line for each call (src/main.rs), at concrete runs.
use loi.Prelude.{All, refl, some, [], ◌∷◌}
use loi.Prelude.Tests.{nat_eq}
use loi.Prelude.Int.{pos}
use loi.Prelude.Result.{ok}
use loi.Prelude.Text.{Text, text}
use loi.Prelude.Word.{dev}
use loi.Prelude.Map.{find, insert}
use loi.Core.Event.{SyscallEvent}
use loi.Core.Tracer.{syscall_name}
use loi.Syscalls.Decoder.{DecodedCall, file, fd, num, decode_fd}
use loi.Syscalls.Decoders.Processes
use loi.Syscalls.Decoders.Files.{close_decode}
use loi.Syscalls.Registry.{
  Registry, with_default_decoders, add_all, add, sysno_id_u64, register, sysno_from_nr, decoder,
}
use loi.Cli.{ErrorKind, decode}
use loi.Cli.Formats.{memory, formats}
use loi.Cli.Typed.{IsDocumented, decode-IsDocumented}
use loi.Syscalls.Decoders.Files
use loi.Syscalls.Decoders.Stat
use loi.Syscalls.Decoders.Maps
use loi.Syscalls.Decoder.{Decoder, DecodeCtx}
use loi.Syscalls.Decoders.Failures.{
  Needs, EndsAt, path_at, buffer_of, bytes_read, bytes_written, nothing, decoders-EndsAs,
}
use loi.Scenarios.Host.{host, call_on_page}
use loi.Scenarios.Filtering.{numbers, numbers-IsTable, literal_globs}
use loi.Scenarios.Output.{errnos}
use loi.Scenarios.Pretty.{no_colors, no_json, serde}
use loi.Scenarios.Printing.{shown_call}

-- `close(3)`, by its number.
abbrev closes : SyscallEvent
closes = record shown_call {
  syscall_nr = 3;
  syscall_name = text "close";
  args = record shown_call.args { arg0 = 3 };
}

abbrev closed : DecodedCall
closed = record { args = (text "fd", fd (num 3)) ∷ []; ret = pos 7 }

abbrev default_registry : Registry numbers
default_registry = elim (with_default_decoders numbers dev Processes.x86_64) [ ok r ↦ r | _ ↦ [] ]

decode-IsDocumented_example :
    IsDocumented numbers Processes.x86_64 default_registry host closes closed (some file)
unfolding with_default_decoders add_all add sysno_id_u64 register sysno_from_nr find insert decode
    decoder close_decode decode_fd
decode-IsDocumented_example =
    decode-IsDocumented numbers literal_globs
      (formats no_colors no_json dev errnos (memory ErrorKind (λ k. k)) serde) numbers-IsTable dev
      Processes.x86_64 default_registry refl host closes closed (some file) refl

-- Below the page that is mapped nothing can be read.
abbrev astray : DecodeCtx
astray = record call_on_page { args = record call_on_page.args { arg1 = 64 } }

decoders-EndsAs_example :
    All
      (λ (row : Decoder × Needs). EndsAt host astray row.0 row.1)
      ((Files.open_at, path_at (λ ctx. ctx.arg1))
        ∷ (Stat.statx, path_at (λ ctx. ctx.arg1))
        ∷ (Stat.stat, path_at (λ ctx. ctx.arg0))
        ∷ (Files.read, buffer_of bytes_read)
        ∷ (Files.write, buffer_of bytes_written)
        ∷ (Files.close, nothing)
        ∷ (Stat.fstat, nothing)
        ∷ (Maps.mmap, nothing)
        ∷ (Maps.mprotect, nothing)
        ∷ (Processes.clone Processes.x86_64, nothing)
        ∷ (Processes.wait4, nothing)
        ∷ [])
decoders-EndsAs_example = decoders-EndsAs Processes.x86_64 host astray
