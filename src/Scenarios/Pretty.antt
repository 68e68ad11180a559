-- ===== src/Scenarios/Pretty.antt =====
-- The theorems on the pretty format (crates/loi-output/src/pretty.rs) at two lookups of one file.
use loi.Prelude.{◌≡◌, none, some, false, List, [], ◌∷◌}
use loi.Prelude.Tests.{nat_eq}
use loi.Prelude.Int.{pos, negsuc}
use loi.Prelude.Result.{NoError}
use loi.Prelude.Text.{text, Text}
use loi.Prelude.Word.{dev}
use loi.Core.Event.{SyscallEvent}
use loi.Syscalls.Decoder.{Host, path, file}
use loi.Output.{Json, ErrnoTable}
use loi.Output.Escape.{chars_from, quoted, escape_default, escape_chars, escape_char}
use loi.Output.Render.{render_arg_text}
use loi.Prelude.Print.{hex}
use loi.Output.Stream.{buffer}
use loi.Output.Style.{Colors, PrettyConfig, config_new}
use loi.Output.JsonLine.{Serde}
use loi.Output.Pretty.{state_new}
use loi.Output.Pretty.Lines.{Call}
use loi.Output.Pretty.Texts.{KeepsLines}
use loi.Output.Escape.Reader.{read_quoted}
use loi.Output.Render.Reading.{read_quoted-render_arg_text}
use loi.Cli.{pretty, ErrorKind, other, fallback_decoded}
use loi.Cli.Shown.{Sunk}
use loi.Scenarios.Output.{errnos, failures}
use loi.Scenarios.Filtering.{numbers, literal_globs, failed_write}
use loi.Scenarios.Host.{host}

-- Styles that change nothing.
abbrev pub no_colors : Colors
no_colors = record {
  Style = Unit;
  style_new = tt;
  style_dimmed = λ s. s;
  style_bold = λ s. s;
  style_cyan = λ s. s;
  style_blue = λ s. s;
  style_magenta = λ s. s;
  style_yellow = λ s. s;
  styled = λ s t. t;
  dimmed = λ t. t;
  bold = λ t. t;
  red = λ t. t;
}

abbrev piped : PrettyConfig
piped = config_new false

-- A process that looks for a library.
abbrev probe : Text → Call
probe p = (
  record {
    pid = pos 12;
    syscall_nr = 257;
    syscall_name = text "openat";
    args = record { arg0 = 0; arg1 = 0; arg2 = 0; arg3 = 0; arg4 = 0; arg5 = 0 };
    ret = negsuc 1;
    duration = 512;
  },
  record { args = (text "pathname", path p) ∷ []; ret = negsuc 1 },
  some file,
)

abbrev pub no_json : Json
no_json = record {
  Value = Unit;
  null = tt;
  bool = λ b. tt;
  number = λ n. tt;
  string = λ s. tt;
  array = λ l. tt;
  object = λ l. tt;
}

abbrev pub serde : Serde (buffer ErrorKind) no_json
serde = record {
  Failure = NoError;
  to_writer = λ v o. (none, o);
  other = λ f. elim f [ ];
  invalid_data = other;
}

abbrev sink : Sunk numbers literal_globs no_colors no_json dev errnos ErrorKind (λ k. k) serde
sink = record {
  out = [];
  format = pretty;
  cfg = piped;
  pretty_state = state_new;
  registry = [];
  filter = failures;
  first_err = none;
  closed = false;
}

-- A call that failed, one that did not, and one of another process that failed.
abbrev three : List (Host × SyscallEvent)
three =
    (host, failed_write)
    ∷ (host, record failed_write { ret = pos 1 })
    ∷ (host, record failed_write { pid = pos 12; ret = negsuc 1 })
    ∷ []

abbrev two : List Call
two =
    (failed_write, fallback_decoded failed_write, none)
    ∷ (let ev = record failed_write { pid = pos 12; ret = negsuc 1 } in
        (ev, fallback_decoded ev, none))
    ∷ []

abbrev no_errnos : ErrnoTable
no_errnos n = none

pub no_colors-KeepsLines : KeepsLines no_colors
no_colors-KeepsLines = record {
  styled_clean = λ st s h. h;
  dimmed_clean = λ s h. h;
  bold_clean = λ s h. h;
  red_clean = λ s h. h;
}

-- A newline and a character of two bytes.
read_quoted-render_arg_text_example :
    read_quoted (text "\"\\n\\u{e9}\", 0)") ≡ some (10 ∷ 0xe9 ∷ [], text ", 0)")
unfolding chars_from render_arg_text quoted escape_default escape_chars escape_char hex
read_quoted-render_arg_text_example =
    read_quoted-render_arg_text (10 ∷ 0xc3 ∷ 0xa9 ∷ []) (text ", 0)")
