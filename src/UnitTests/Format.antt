-- ===== src/UnitTests/Format.antt =====
-- The unit tests of crates/loi-output/src/format_common.rs.
use loi.Prelude.{ℕ, ◌+◌, ◌*◌, ◌&&◌, not, ◌≡◌, refl, Bool, true, List, [], ◌∷◌, all, is_empty}
use loi.Prelude.Int.{pos, negsuc}
use loi.Prelude.Print.{decimal_ℤ, hex, octal}
use loi.Prelude.Text.{Text, text, text_beq}
use loi.Prelude.Word.{dev}
use loi.Syscalls.Decoder.{DecodedArg, path, fd, at_fdcwd, num, flags, mode, bytes, ptr, argv}
use loi.Output.{errno_of_ret}
use loi.Output.Escape.{chars_from, quoted, escape_default, escape_chars, escape_char}
use loi.Output.Duration.{
  round_half_even, raised, lowered, nearest_double, divided, one_decimal, fmt_duration,
}
use loi.Output.Render.{render_arg_text}
use loi.Syscalls.Utf8.{from_utf8_lossy, start}
use loi.UnitTests.Support.{linux_errnos, is_ok, is_none, is_some_of}

-- `assert_eq!(render_arg_text(&arg), "…")`
unfoldable rendered_as : DecodedArg → Text → Bool
unfolding render_arg_text chars_from quoted escape_default escape_chars escape_char decimal_ℤ hex
    octal from_utf8_lossy start
rendered_as arg s = text_beq (render_arg_text arg) s

abbrev render_path_quotes_and_escapes : Bool
render_path_quotes_and_escapes = rendered_as (path (text "/tmp/x\n")) (text "\"/tmp/x\\n\"")

abbrev render_fd_at_fdcwd : Bool
render_fd_at_fdcwd = rendered_as (fd at_fdcwd) (text "AT_FDCWD")

abbrev render_fd_num : Bool
render_fd_num = rendered_as (fd (num 3)) (text "3")

abbrev render_flags_joined_with_pipe : Bool
render_flags_joined_with_pipe =
    rendered_as (flags (text "O_RDONLY" ∷ text "O_CLOEXEC" ∷ [])) (text "O_RDONLY|O_CLOEXEC")

abbrev render_flags_empty_is_zero : Bool
render_flags_empty_is_zero = rendered_as (flags []) (text "0")

-- 0o644 is 420.
abbrev render_mode_octal : Bool
render_mode_octal = rendered_as (mode 420) (text "0o644")

abbrev render_bytes_truncation_marker : Bool
render_bytes_truncation_marker = rendered_as (bytes (text "hi") 5) (text "\"hi\"...")

abbrev render_bytes_no_marker_when_complete : Bool
render_bytes_no_marker_when_complete = rendered_as (bytes (text "hi") 2) (text "\"hi\"")

abbrev errno_of_ret_resolves_enoent : Bool
errno_of_ret_resolves_enoent =
    is_ok
      (is_some_of
        (λ (named : Text × Text). text_beq named.0 (text "ENOENT") && not (is_empty named.1)))
      (errno_of_ret dev linux_errnos (negsuc 1))

abbrev errno_of_ret_none_for_success : Bool
errno_of_ret_none_for_success =
    is_ok is_none (errno_of_ret dev linux_errnos (pos 0))
    && is_ok is_none (errno_of_ret dev linux_errnos (pos 42))

-- `assert_eq!(fmt_duration(d), "…")`
unfoldable formatted_as : ℕ → Text → Bool
unfolding fmt_duration one_decimal divided nearest_double round_half_even raised lowered
formatted_as nanos s = text_beq (fmt_duration nanos) s

abbrev fmt_duration_picks_unit : Bool
fmt_duration_picks_unit =
    formatted_as 500 (text "500ns")
    && (formatted_as (12 * 1000) (text "12us")
        && (formatted_as (1 * 1000000 + 200 * 1000) (text "1.2ms")
            && formatted_as (3400 * 1000000) (text "3.4s")))

abbrev render_hex_with_0x_prefix : Bool
render_hex_with_0x_prefix = rendered_as (DecodedArg.hex 0xdeadbeef) (text "0xdeadbeef")

abbrev render_ptr_zero_renders_null : Bool
render_ptr_zero_renders_null = rendered_as (ptr 0) (text "NULL")

abbrev render_ptr_nonzero_renders_hex : Bool
render_ptr_nonzero_renders_hex = rendered_as (ptr 0x1000) (text "0x1000")

abbrev render_argv_quotes_each_entry : Bool
render_argv_quotes_each_entry =
    rendered_as (argv (text "ls" ∷ text "-l" ∷ [])) (text "[\"ls\", \"-l\"]")

abbrev render_argv_escapes_special_chars : Bool
render_argv_escapes_special_chars = rendered_as (argv (text "a\nb" ∷ [])) (text "[\"a\\nb\"]")

abbrev render_argv_empty_is_empty_brackets : Bool
render_argv_empty_is_empty_brackets = rendered_as (argv []) (text "[]")

abbrev suite : List Bool
suite =
    render_path_quotes_and_escapes ∷ render_fd_at_fdcwd ∷ render_fd_num
    ∷ render_flags_joined_with_pipe ∷ render_flags_empty_is_zero ∷ render_mode_octal
    ∷ render_bytes_truncation_marker ∷ render_bytes_no_marker_when_complete
    ∷ errno_of_ret_resolves_enoent ∷ errno_of_ret_none_for_success ∷ fmt_duration_picks_unit
    ∷ render_hex_with_0x_prefix ∷ render_ptr_zero_renders_null ∷ render_ptr_nonzero_renders_hex
    ∷ render_argv_quotes_each_entry ∷ render_argv_escapes_special_chars
    ∷ render_argv_empty_is_empty_brackets ∷ []

suite_passes : all (λ t. t) suite ≡ true
unfolding rendered_as formatted_as errno_of_ret
suite_passes = refl
