-- ===== src/Output/Escape/Reader.antt =====
-- What `str::escape_default` writes between quotes, read back.
use loi.Prelude.{
  ℕ, ◌+◌, ◌*◌, ◌≡◌, refl, ◌∙◌, Option, none, some, List, [], ◌∷◌, ◌++◌, append_assoc, true, false,
  All, arith, inl, inr, ◌==◌, leb, ◌||◌, ◌&&◌, if◌then◌else◌, Bool-cases, ==_iff,
}
use loi.Prelude.Print.{hex}
use loi.Prelude.Print.HexValue.{IsHexDigit, digit_value, hex_value, hex_value-hex, hex-IsHexDigit}
use loi.Prelude.Text.{Text, text}
use loi.Output.Escape.{chars, escape_char, escape_chars, escape_default, quoted}

-- Where the reader is: between characters, after a backslash, after its `u`, or in the digits.
pub data Mode : Type 0 where
  plain slash opening : Mode
  digits : ℕ → Mode

-- What a byte does: it ends the text, goes on in a mode, or completes a character.
pub data Step : Type 0 where
  ends stuck : Step
  goes : Mode → Step
  reads : ℕ → Step

abbrev step : Mode → ℕ → Step
step plain b = if b == 34 then ends else if b == 92 then goes slash else reads b
step slash b =
    if b == 116
    then reads 9
    else if b == 114
    then reads 13
    else if b == 110
    then reads 10
    else if b == 117
    then goes opening
    else reads b
step opening b = if b == 123 then goes (digits 0) else stuck
step (digits acc) b = if b == 125 then reads acc else goes (digits (acc * 16 + digit_value b))

abbrev prepend : ℕ → Option (List ℕ × Text) → Option (List ℕ × Text)
prepend c none = none
prepend c (some (cs, rest)) = some (c ∷ cs, rest)

-- The characters up to the closing quote, and what follows it.
read_from : Mode → Text → Option (List ℕ × Text)
read_from m [] = none
read_from m (b ∷ s) = elim (step m b) [
  | ends ↦ some ([], s)
  | stuck ↦ none
  | goes m' ↦ read_from m' s
  | reads c ↦ prepend c (read_from plain s)
]

unfoldable pub read_quoted : Text → Option (List ℕ × Text)
unfolding read_from
read_quoted [] = none
read_quoted (b ∷ s) = if b == 34 then read_from plain s else none

read_from-digits :
    (acc : ℕ) (ds rest : Text)
    → All IsHexDigit ds
    → read_from (digits acc) (ds ++ 125 ∷ rest) ≡ prepend (hex_value acc ds) (read_from plain rest)
unfolding read_from
read_from-digits acc [] rest h = refl
read_from-digits acc (d ∷ ds) rest h =
    let ih = read_from-digits (acc * 16 + digit_value d) ds rest h.1 in
    let no_brace : (d == 125) ≡ false = ground (arith, h.0) in rw (no_brace, read_from) ih

read_from-hex :
    (c : ℕ) (rest : Text)
    → read_from plain ((text "\\u{" ++ (hex c ++ text "}")) ++ rest)
      ≡ prepend c (read_from plain rest)
unfolding read_from
read_from-hex c rest =
    rw (append_assoc (hex c))
      (read_from-digits 0 (hex c) rest (hex-IsHexDigit c) ∙ rw (hex_value-hex c) refl)

read_from-slash :
    (c : ℕ) (rest : Text)
    → (c == 39 || (c == 34 || c == 92)) ≡ true
    → read_from plain (92 ∷ c ∷ rest) ≡ prepend c (read_from plain rest)
unfolding read_from
read_from-slash c rest h = grind arith

read_from-plain :
    (c : ℕ) (rest : Text)
    → (c == 39 || (c == 34 || c == 92)) ≡ false
    → read_from plain (c ∷ rest) ≡ prepend c (read_from plain rest)
unfolding read_from
read_from-plain c rest h = grind arith

read_from-escape_char :
    (c : ℕ) (rest : Text)
    → read_from plain (escape_char c ++ rest) ≡ prepend c (read_from plain rest)
unfolding escape_char read_from
read_from-escape_char c rest = elim (Bool-cases (c == 9)) [
  | inl e ↦ rw ((==_iff c 9).0 e) refl
  | inr n9 ↦ elim (Bool-cases (c == 13)) [
    | inl e ↦ rw ((==_iff c 13).0 e) refl
    | inr n13 ↦ elim (Bool-cases (c == 10)) [
      | inl e ↦ rw ((==_iff c 10).0 e) refl
      | inr n10 ↦ elim (Bool-cases (c == 39 || (c == 34 || c == 92))) [
        | inl e ↦ rw (n9, n13, n10, e, escape_char) (read_from-slash c rest e)
        | inr ne ↦ elim (Bool-cases (leb 0x20 c && leb c 0x7e)) [
          | inl e ↦ rw (n9, n13, n10, ne, e, escape_char) (read_from-plain c rest ne)
          | inr long ↦ rw (n9, n13, n10, ne, long, escape_char) (read_from-hex c rest)
        ]
      ]
    ]
  ]
]

read_from-escape_chars :
    (cs : List ℕ) (rest : Text) → read_from plain (escape_chars cs ++ 34 ∷ rest) ≡ some (cs, rest)
unfolding escape_chars read_from
read_from-escape_chars [] rest = refl
read_from-escape_chars (c ∷ cs) rest = rw (append_assoc (escape_char c)) (
    read_from-escape_char c (escape_chars cs ++ 34 ∷ rest)
    ∙ rw (read_from-escape_chars cs rest) refl)

-- Reading back gives the characters of the text that was escaped, and what follows the quotes: no
-- text between quotes ends early or runs on.
pub read_quoted-quoted : (s rest : Text) → read_quoted (quoted s ++ rest) ≡ some (chars s, rest)
unfolding read_quoted quoted escape_default
read_quoted-quoted s rest =
    rw (append_assoc (escape_chars (chars s))) (read_from-escape_chars (chars s) rest)
