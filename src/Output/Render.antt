-- ===== src/Output/Render.antt =====
-- `render_arg_text` (crates/loi-output/src/format_common.rs).
pub mod Reading
use loi.Prelude.{[], ◌++◌, map, length, is_empty, ltb, ◌==◌, if◌then◌else◌}
use loi.Prelude.Print.{decimal, decimal_ℤ, hex, octal}
use loi.Prelude.Text.{Text, text, join}
use loi.Syscalls.Utf8.{from_utf8_lossy}
use loi.Syscalls.Decoder.{
  at_fdcwd, invalid, num, DecodedArg, path, fd, flags, mode, int, uint, bytes, ptr, argv,
}
use loi.Output.Escape.{quoted}

unfoldable pub render_arg_text : DecodedArg → Text
render_arg_text (path s) = quoted s
render_arg_text (fd at_fdcwd) = text "AT_FDCWD"
render_arg_text (fd invalid) = text "-1"
render_arg_text (fd (num n)) = decimal n
render_arg_text (flags names) = if is_empty names then text "0" else join (text "|") names
render_arg_text (mode m) = text "0o" ++ octal m
render_arg_text (int i) = decimal_ℤ i
render_arg_text (uint u) = decimal u
render_arg_text (bytes inline total) =
    quoted (from_utf8_lossy inline) ++ (if ltb (length inline) total then text "..." else [])
render_arg_text (ptr n) = if n == 0 then text "NULL" else text "0x" ++ hex n
render_arg_text (DecodedArg.hex n) = text "0x" ++ hex n
render_arg_text (argv entries) = text "[" ++ (join (text ", ") (map quoted entries) ++ text "]")
