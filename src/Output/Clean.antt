-- ===== src/Output/Clean.antt =====
-- The texts of crates/loi-output/src/format_common.rs that no newline stands in.
use loi.Prelude.{
  ℕ, ◌*◌, ◌/◌, ◌%◌, ltb, ◌==◌, if◌then◌else◌, ◌≢◌, List, [], ◌∷◌, ◌++◌, map, length, Bool, true,
  false, All, All-append, arith, is_empty,
}
use loi.Prelude.Text.{Text, text, join}
use loi.Prelude.Print.{decimal, decimal_ℤ, hex, octal}
use loi.Prelude.Print.Printable.{
  ArePrintable, decimal-ArePrintable, decimal_ℤ-ArePrintable, hex-ArePrintable, octal-ArePrintable,
}
use loi.Syscalls.Decoder.{
  DecodedArg, path, fd, at_fdcwd, invalid, num, flags, mode, int, uint, bytes, ptr, argv,
}
use loi.Output.Escape.{quoted}
use loi.Output.Escape.Ascii.{quoted-ArePrintable}
use loi.Output.Render.{render_arg_text}
use loi.Syscalls.Utf8.{from_utf8_lossy}
use loi.Output.Duration.{round_half_even, one_decimal, divided, fmt_duration}

-- Without a newline.
abbrev pub IsClean : Text → Type 0
IsClean = All (λ b. b ≢ 10)

pub append-IsClean : (s t : Text) → IsClean s → IsClean t → IsClean (s ++ t)
append-IsClean s t = All-append (λ b. b ≢ 10) s t

pub printable-IsClean : (s : Text) → ArePrintable s → IsClean s
printable-IsClean [] h = tt
printable-IsClean (b ∷ s) h = ((let low = h.0.0 in omega arith), printable-IsClean s h.1)

pub join-IsClean :
    (sep : Text) (parts : List Text) → IsClean sep → All IsClean parts → IsClean (join sep parts)
join-IsClean sep [] h hs = tt
join-IsClean sep (s ∷ []) h hs = hs.0
join-IsClean sep (s ∷ t ∷ rest) h hs =
    append-IsClean s (sep ++ join sep (t ∷ rest)) hs.0
      (append-IsClean sep (join sep (t ∷ rest)) h (join-IsClean sep (t ∷ rest) h hs.1))

if-IsClean : (b : Bool) (s t : Text) → IsClean s → IsClean t → IsClean (if b then s else t)
if-IsClean true s t hs ht = hs
if-IsClean false s t hs ht = ht

pub decimal-IsClean : (n : ℕ) → IsClean (decimal n)
decimal-IsClean n = printable-IsClean (decimal n) (decimal-ArePrintable n)

hex-IsClean : (n : ℕ) → IsClean (text "0x" ++ hex n)
hex-IsClean n =
    append-IsClean (text "0x") (hex n) (omega arith)
      (printable-IsClean (hex n) (hex-ArePrintable n))

-- The names of flags are the decoders' own; no other argument brings text of its own into a line.
abbrev pub HasCleanNames : DecodedArg → Type 0
HasCleanNames (flags names) = All IsClean names
HasCleanNames _ = Unit

quoted-IsClean : (s : Text) → IsClean (quoted s)
quoted-IsClean s = printable-IsClean (quoted s) (quoted-ArePrintable s)

map-quoted-IsClean : (ss : List Text) → All IsClean (map quoted ss)
map-quoted-IsClean [] = tt
map-quoted-IsClean (s ∷ ss) = (quoted-IsClean s, map-quoted-IsClean ss)

-- Whatever bytes a path, a buffer or an argument holds.
pub render_arg_text-IsClean : (arg : DecodedArg) → HasCleanNames arg → IsClean (render_arg_text arg)
unfolding render_arg_text
render_arg_text-IsClean (path s) h = quoted-IsClean s
render_arg_text-IsClean (fd at_fdcwd) h = omega arith
render_arg_text-IsClean (fd invalid) h = omega arith
render_arg_text-IsClean (fd (num n)) h = decimal-IsClean n
render_arg_text-IsClean (flags names) h =
    if-IsClean (is_empty names) (text "0") (join (text "|") names) (omega arith)
      (join-IsClean (text "|") names (omega arith) h)
render_arg_text-IsClean (mode m) h =
    append-IsClean (text "0o") (octal m) (omega arith)
      (printable-IsClean (octal m) (octal-ArePrintable m))
render_arg_text-IsClean (int i) h = printable-IsClean (decimal_ℤ i) (decimal_ℤ-ArePrintable i)
render_arg_text-IsClean (uint u) h = decimal-IsClean u
render_arg_text-IsClean (bytes inline total) h =
    append-IsClean (quoted (from_utf8_lossy inline)) _ (quoted-IsClean (from_utf8_lossy inline))
      (if-IsClean (ltb (length inline) total) (text "...") [] (omega arith) tt)
render_arg_text-IsClean (ptr n) h =
    if-IsClean (n == 0) (text "NULL") (text "0x" ++ hex n) (omega arith) (hex-IsClean n)
render_arg_text-IsClean (DecodedArg.hex n) h = hex-IsClean n
render_arg_text-IsClean (argv entries) h = append-IsClean (text "[") _ (omega arith) (
    append-IsClean (join (text ", ") (map quoted entries)) (text "]")
      (join-IsClean (text ", ") (map quoted entries) (omega arith) (map-quoted-IsClean entries))
      (omega arith))

one_decimal-IsClean : (x : ℕ × ℕ) → IsClean (one_decimal x)
unfolding one_decimal
one_decimal-IsClean (n, d) =
    let tenths = round_half_even (10 * n) d in
    append-IsClean (decimal (tenths / 10)) _ (decimal-IsClean (tenths / 10)) (
      append-IsClean (text ".") (decimal (tenths % 10)) (omega arith)
        (decimal-IsClean (tenths % 10)))

pub fmt_duration-IsClean : (nanos : ℕ) → IsClean (fmt_duration nanos)
unfolding fmt_duration
fmt_duration-IsClean nanos =
    let whole = λ (n : ℕ) (unit : Text) (h : IsClean unit).
      append-IsClean (decimal n) unit (decimal-IsClean n) h in
    let part = λ (d : ℕ) (unit : Text) (h : IsClean unit).
      append-IsClean (one_decimal (divided nanos d)) unit (one_decimal-IsClean (divided nanos d))
        h in
    if-IsClean (ltb nanos 1000) _ _ (whole nanos (text "ns") (omega arith)) (
      if-IsClean (ltb nanos 1000000) _ _ (whole (nanos / 1000) (text "us") (omega arith)) (
        if-IsClean (ltb nanos 1000000000) _ _ (part 1000000 (text "ms") (omega arith))
          (part 1000000000 (text "s") (omega arith))))
