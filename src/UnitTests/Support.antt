-- ===== src/UnitTests/Support.antt =====
-- What the unit tests use of the standard library, and stand-ins for the crates.
use loi.Prelude.{
  ℕ, zero, suc, ◌&&◌, ◌||◌, Bool, true, false, Option, none, some, List, [], ◌∷◌, ◌++◌, ◌==◌, ltb,
  if◌then◌else◌,
}
use loi.Prelude.Result.{Result, ok, err, panic}
use loi.Prelude.Text.{Text, text, text_beq}
use loi.Output.{ErrnoTable}
use loi.Output.Style.{Colors}

-- `str::starts_with`
abbrev pub starts_with : Text → Text → Bool
starts_with s [] = true
starts_with [] (b ∷ p) = false
starts_with (a ∷ s) (b ∷ p) = a == b && starts_with s p

-- `str::contains`
abbrev pub contains : Text → Text → Bool
contains [] p = starts_with [] p
contains (a ∷ s) p = starts_with (a ∷ s) p || contains s p

-- `str::find`
abbrev pub find : Text → Text → Option ℕ
find [] p = if starts_with [] p then some 0 else none
find (a ∷ s) p =
    let later = find s p in
    if starts_with (a ∷ s) p then some 0 else elim later [ some n ↦ some (suc n) | none ↦ none ]

-- Two finds, each of which the test expects: at the same column, or the first before the second.
abbrev pub same_column : Option ℕ → Option ℕ → Bool
same_column (some m) (some n) = m == n
same_column _ _ = false

abbrev pub column_below : Option ℕ → Option ℕ → Bool
column_below (some m) (some n) = ltb m n
column_below _ _ = false

-- `slice::last`
abbrev pub last {ℓ} : {A : Type ℓ} → List A → Option A
last [] = none
last (a ∷ []) = some a
last (a ∷ b ∷ s) = last (b ∷ s)

-- `str::ends_with` of one character, by its byte.
abbrev pub ends_with_byte : Text → ℕ → Bool
ends_with_byte s b = elim (last s) [ some a ↦ a == b | none ↦ false ]

-- `&buf[..buf.len() - 1]`
abbrev pub without_last {ℓ} : {A : Type ℓ} → List A → List A
without_last [] = []
without_last (a ∷ []) = []
without_last (a ∷ b ∷ s) = a ∷ without_last (b ∷ s)

-- `str::trim_end`, of a text that ends in one space.
abbrev pub trim_end : Text → Text
trim_end s = if ends_with_byte s 32 then without_last s else s

-- `str::lines`, with the line read so far. The text after the last newline is a line if it is not
-- empty.
abbrev lines_from : Text → Text → List Text
lines_from [] [] = []
lines_from (a ∷ line) [] = (a ∷ line) ∷ []
lines_from line (b ∷ s) = elim (b == 10) [
  | true ↦ line ∷ lines_from [] s
  | false ↦ lines_from (line ++ b ∷ []) s
]

abbrev pub lines : Text → List Text
lines = lines_from []

-- An assertion on `lines[i]`, which fails where there is none.
abbrev pub at_line : List Text → ℕ → (Text → Bool) → Bool
at_line [] i p = false
at_line (l ∷ ls) zero p = p l
at_line (l ∷ ls) (suc i) p = at_line ls i p

-- A result that is `Ok` of what a test accepts.
abbrev pub is_ok {ℓ κ} : {E : Type ℓ} {A : Type κ} → (A → Bool) → Result E A → Bool
is_ok p (ok a) = p a
is_ok p (err e) = false
is_ok p panic = false

abbrev pub is_some_of {ℓ} : {A : Type ℓ} → (A → Bool) → Option A → Bool
is_some_of p (some a) = p a
is_some_of p none = false

abbrev pub is_none {ℓ} : {A : Type ℓ} → Option A → Bool
is_none none = true
is_none (some a) = false

abbrev pub texts_beq : List Text → List Text → Bool
texts_beq [] [] = true
texts_beq (s ∷ ss) (t ∷ ts) = text_beq s t && texts_beq ss ts
texts_beq _ _ = false

-- The errnos that the tests meet, as nix names and describes them on Linux.
abbrev pub linux_errnos : ErrnoTable
linux_errnos n =
    if n == 2
    then some (text "ENOENT", text "No such file or directory")
    else if n == 13
    then some (text "EACCES", text "Permission denied")
    else none

-- An SGR escape sequence.
abbrev pub sgr : Text → Text
sgr parameters = 27 ∷ text "[" ++ (parameters ++ text "m")

-- The parameters of a style: its color, and then its effects.
abbrev pub AnsiStyle : Type 0
AnsiStyle = Option Text × List Text

abbrev parameters_of : List Text → Text
parameters_of [] = []
parameters_of (p ∷ []) = p
parameters_of (p ∷ q ∷ ps) = p ++ (text ";" ++ parameters_of (q ∷ ps))

abbrev in_order : AnsiStyle → List Text
in_order (none, effects) = effects
in_order (some color, effects) = color ∷ effects

abbrev in_ansi : List Text → Text → Text
in_ansi [] s = s
in_ansi (p ∷ ps) s = sgr (parameters_of (p ∷ ps)) ++ (s ++ sgr (text "0"))

-- The styles of a terminal.
abbrev pub ansi : Colors
ansi = record {
  Style = AnsiStyle;
  style_new = (none, []);
  style_dimmed = λ st. (st.0, st.1 ++ text "2" ∷ []);
  style_bold = λ st. (st.0, st.1 ++ text "1" ∷ []);
  style_cyan = λ st. (some (text "36"), st.1);
  style_blue = λ st. (some (text "34"), st.1);
  style_magenta = λ st. (some (text "35"), st.1);
  style_yellow = λ st. (some (text "33"), st.1);
  styled = λ st s. in_ansi (in_order st) s;
  dimmed = λ s. sgr (text "2") ++ (s ++ sgr (text "0"));
  bold = λ s. sgr (text "1") ++ (s ++ sgr (text "0"));
  red = λ s. sgr (text "31") ++ (s ++ sgr (text "39"));
}
