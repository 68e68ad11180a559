-- ===== src/Output/Escape.antt =====
-- `str::escape_default` of the standard library, which crates/loi-output/src/format_common.rs puts
-- between quotes.
pub mod Ascii
pub mod Reader
use loi.Prelude.{
  ℕ, zero, suc, ◌+◌, ◌*◌, ◌%◌, ◌&&◌, ◌||◌, List, [], ◌∷◌, ◌++◌, true, false, leb, ltb, ◌==◌,
  if◌then◌else◌,
}
use loi.Prelude.Print.{hex}
use loi.Prelude.Text.{Text, text}

-- The characters of valid UTF-8, as code points: the first argument is how many bytes of a
-- character are still to come, the second what they add to.
unfoldable pub chars_from : ℕ → ℕ → Text → List ℕ
chars_from n acc [] = []
chars_from zero acc (b ∷ s) = elim (ltb b 0x80) [
  | true ↦ b ∷ chars_from 0 0 s
  | false ↦ elim (ltb b 0xe0) [
    | true ↦ chars_from 1 (b % 32) s
    | false ↦ elim (ltb b 0xf0) [ true ↦ chars_from 2 (b % 16) s | false ↦ chars_from 3 (b % 8) s ]
  ]
]
chars_from (suc zero) acc (b ∷ s) = (acc * 64 + b % 64) ∷ chars_from 0 0 s
chars_from (suc (suc n)) acc (b ∷ s) = chars_from (suc n) (acc * 64 + b % 64) s

-- `s.chars()`
abbrev pub chars : Text → List ℕ
chars s = chars_from 0 0 s

-- `c.escape_default()`
unfoldable pub escape_char : ℕ → Text
escape_char c =
    if c == 9
    then text "\\t"
    else if c == 13
    then text "\\r"
    else if c == 10
    then text "\\n"
    else if c == 39 || (c == 34 || c == 92)
    then 92 ∷ c ∷ []
    else if leb 0x20 c && leb c 0x7e
    then c ∷ []
    else text "\\u{" ++ (hex c ++ text "}")

unfoldable pub escape_chars : List ℕ → Text
escape_chars [] = []
escape_chars (c ∷ cs) = escape_char c ++ escape_chars cs

-- `s.escape_default()`
unfoldable pub escape_default : Text → Text
escape_default s = escape_chars (chars s)

-- `"\"{}\""` of a string escaped.
unfoldable pub quoted : Text → Text
quoted s = 34 ∷ escape_default s ++ 34 ∷ []
