-- ===== src/UnitTests/Pretty.antt =====
-- The events and the helpers of the unit tests of crates/loi-output/src/pretty.rs.
mod Columns
mod Colors
mod Groups
use loi.Prelude.{
  ℕ, ◌-◌, ◌&&◌, not, ◌≡◌, refl, Bool, true, false, Option, none, some, List, [], ◌∷◌, ◌++◌, length,
  all, ◌==◌, ltb, if◌then◌else◌,
}
use loi.Prelude.Int.{ℤ, pos, negsuc, eq_ℤ}
use loi.Prelude.Print.{decimal_ℤ, octal, hex}
use loi.Prelude.Result.{NoError, Result, ok, err, panic}
use loi.Prelude.Text.{Text, text, text_beq}
use loi.Prelude.Word.{dev}
use loi.Core.Regs.{Args}
use loi.Core.Event.{SyscallEvent, new}
use loi.Syscalls.Decoder.{
  DecodedArg, DecodedCall, Category, path, fd, at_fdcwd, num, flags, mode, uint, ptr,
}
use loi.Output.{lookup_basename, is_path_lookup, pathname_base, after_last, errno_of_ret}
use loi.Output.Escape.{chars_from, quoted, escape_default, escape_chars, escape_char}
use loi.Output.Duration.{fmt_duration}
use loi.Output.Render.{render_arg_text}
use loi.Output.Stream.{buffer}
use loi.Output.Style.{PrettyConfig, config_new, with_aligned, with_group_lookups, name_style}
use loi.Output.Pretty.{
  write_pid_column_plain, write_pid_column_color, line_of, is_continuation, widened, write_ret,
  pads, looked_up, PrettyState, state_new, write_event,
}
use loi.UnitTests.Support.{
  ansi, linux_errnos, starts_with, contains, find, ends_with_byte, lines, at_line, same_column,
  column_below,
}

abbrev pub Case : Type 0
Case = SyscallEvent × DecodedCall

abbrev pub no_args : Args
no_args = record { arg0 = 0; arg1 = 0; arg2 = 0; arg3 = 0; arg4 = 0; arg5 = 0 }

abbrev pub openat_ok : Case
openat_ok = (
  new (pos 1234) 257 (text "openat") no_args (pos 3) 12000,
  record {
    args =
        (text "dirfd", fd at_fdcwd)
        ∷ (text "pathname", path (text "/etc/hosts"))
        ∷ (text "flags", flags (text "O_RDONLY" ∷ text "O_CLOEXEC" ∷ []))
        ∷ (text "mode", mode 0)
        ∷ [];
    ret = pos 3;
  },
)

abbrev pub open_ok : ℤ → Case
open_ok pid = (
  new pid 2 (text "open") no_args (pos 3) 7000,
  record {
    args =
        (text "pathname", path (text "/etc/hosts"))
        ∷ (text "flags", flags (text "O_RDONLY" ∷ []))
        ∷ [];
    ret = pos 3;
  },
)

abbrev pub read_ok : ℤ → Case
read_ok pid = (
  new pid 0 (text "read") no_args (pos 0) 3000,
  record {
    args = (text "fd", fd (num 3)) ∷ (text "buf", ptr 0x1000) ∷ (text "count", uint 64) ∷ [];
    ret = pos 0;
  },
)

-- `write_event(…).expect("write to Vec succeeds")`: the state and the text after it, none where the
-- test would panic.
unfoldable pub written :
    PrettyConfig
    → Option Category
    → Case
    → Option (PrettyState × Text)
    → Option (PrettyState × Text)
unfolding write_event new lookup_basename is_path_lookup decimal_ℤ chars_from render_arg_text
    fmt_duration write_pid_column_plain write_pid_column_color line_of is_continuation pathname_base
    after_last widened write_ret errno_of_ret pads quoted escape_default escape_chars escape_char
    octal name_style looked_up hex eq_ℤ
written cfg category (ev, decoded) none = none
written cfg category (ev, decoded) (some (s, o)) =
    let (res, s', o') =
      write_event (buffer NoError) ansi dev linux_errnos ev decoded category cfg s o in
    elim res [ ok u ↦ some (s', o') | err e ↦ none | panic ↦ none ]

-- Cases written in order by one formatter.
unfoldable pub written_all :
    PrettyConfig
    → Option Category
    → List Case
    → Option (PrettyState × Text)
    → Option (PrettyState × Text)
unfolding written
written_all cfg category [] out = out
written_all cfg category (c ∷ cs) out = written_all cfg category cs (written cfg category c out)

-- An assertion on the text, which fails where the writing did.
abbrev pub on_text : Option (PrettyState × Text) → (Text → Bool) → Bool
on_text none p = false
on_text (some (s, o)) p = p o

abbrev pub start : Option (PrettyState × Text)
start = some (state_new, [])

-- `render_with` and `render`, with the assertions on the line.
abbrev pub render_with : Case → Option Category → PrettyConfig → (Text → Bool) → Bool
render_with c category cfg = on_text (written cfg category c start)

abbrev pub render : Case → Bool → (Text → Bool) → Bool
render c color = render_with c none (config_new color)

abbrev pub enoent_openat : ℤ → Text → Case
enoent_openat pid p = (
  new pid 257 (text "openat") no_args (negsuc 1) 5000,
  record {
    args =
        (text "dirfd", fd at_fdcwd)
        ∷ (text "pathname", path p)
        ∷ (text "flags", flags (text "O_RDONLY" ∷ text "O_CLOEXEC" ∷ []))
        ∷ (text "mode", mode 0)
        ∷ [];
    ret = negsuc 1;
  },
)

abbrev pub mmap_ok : ℤ → Case
mmap_ok pid = (
  new pid 9 (text "mmap") no_args (pos 0x7f0000000000) 8000,
  record {
    args =
        (text "addr", DecodedArg.hex 0)
        ∷ (text "length", uint 4096)
        ∷ (text "prot", flags (text "PROT_READ" ∷ []))
        ∷ (text "flags", flags (text "MAP_PRIVATE" ∷ []))
        ∷ (text "fd", fd (num 3))
        ∷ (text "offset", uint 0)
        ∷ [];
    ret = pos 0x7f0000000000;
  },
)
