-- ===== src/Output/Render/Reading.antt =====
-- Which characters a path stands for in the output.
use loi.Prelude.{◌≡◌, some, ◌++◌}
use loi.Prelude.Text.{Text}
use loi.Syscalls.Decoder.{path}
use loi.Output.Escape.{chars}
use loi.Output.Escape.Reader.{read_quoted, read_quoted-quoted}
use loi.Output.Render.{render_arg_text}

-- A path is shown so that a reader of quoted text with Rust's escapes gets its characters back, and
-- exactly what follows the closing quote, whatever the path holds.
pub read_quoted-render_arg_text :
    (p rest : Text) → read_quoted (render_arg_text (path p) ++ rest) ≡ some (chars p, rest)
unfolding render_arg_text
read_quoted-render_arg_text p rest = read_quoted-quoted p rest
