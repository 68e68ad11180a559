-- ===== src/Output/Escape/Ascii.antt =====
-- Printable ASCII through `str::chars` and `str::escape_default`.
use loi.Prelude.{ℕ, ◌≡◌, refl, ap, List, [], ◌∷◌, All-append, arith, lt→ltb}
use loi.Prelude.Print.{hex}
use loi.Prelude.Print.Printable.{IsPrintable, ArePrintable, hex-ArePrintable}
use loi.Prelude.Text.{Text, text}
use loi.Output.Escape.{chars, chars_from, escape_char, escape_chars, escape_default, quoted}

-- Each byte is a character.
pub chars-ascii : (s : Text) → ArePrintable s → chars s ≡ s
unfolding chars_from
chars-ascii [] h = refl
chars-ascii (b ∷ s) h =
    let low = lt→ltb b 0x80 (let top = h.0.1 in omega arith) in
    rw (low, chars_from) (ap (λ (r : Text). b ∷ r) (chars-ascii s h.1))

escape_char-ArePrintable : (c : ℕ) → ArePrintable (escape_char c)
unfolding escape_char
escape_char-ArePrintable c =
    let digits = hex-ArePrintable c in
    let long = All-append IsPrintable (hex c) (text "}") digits (omega arith) in ground arith

escape_chars-ArePrintable : (cs : List ℕ) → ArePrintable (escape_chars cs)
unfolding escape_chars
escape_chars-ArePrintable [] = tt
escape_chars-ArePrintable (c ∷ cs) =
    All-append IsPrintable (escape_char c) (escape_chars cs) (escape_char-ArePrintable c)
      (escape_chars-ArePrintable cs)

-- What stands between quotes is printable, whatever was escaped.
pub quoted-ArePrintable : (s : Text) → ArePrintable (quoted s)
unfolding quoted escape_default
quoted-ArePrintable s = (
  omega arith,
  All-append IsPrintable (escape_chars (chars s)) (34 ∷ []) (escape_chars-ArePrintable (chars s))
      (omega arith),
)
