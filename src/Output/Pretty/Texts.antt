-- ===== src/Output/Pretty/Texts.antt =====
-- The parts of a line that no newline stands in.
use loi.Prelude.{
  Bool, true, false, if◌then◌else◌, ℕ, zero, suc, ◌-◌, Option, none, some, List, [], ◌∷◌, ◌++◌, map,
  All, arith,
}
use loi.Prelude.Int.{ℤ}
use loi.Prelude.Text.{Text, text}
use loi.Prelude.Print.{decimal_ℤ}
use loi.Prelude.Print.Printable.{decimal_ℤ-ArePrintable}
use loi.Syscalls.Decoder.{DecodedArg}
use loi.Output.Render.{render_arg_text}
use loi.Output.Clean.{
  IsClean, append-IsClean, printable-IsClean, HasCleanNames, render_arg_text-IsClean,
}
use loi.Output.Style.{Colors}
use loi.Output.Pretty.{ret_text, bracketed, spaces, left_aligned, char_count}

pub spaces-IsClean : (n : ℕ) → IsClean (spaces n)
spaces-IsClean zero = tt
spaces-IsClean (suc n) = (omega arith, spaces-IsClean n)

-- The parts of a result with an errno.
pub parts-IsClean :
    (n symbol description : Text)
    → IsClean n
    → IsClean symbol
    → IsClean description
    → IsClean (n ++ (text " " ++ (symbol ++ (text " (" ++ (description ++ text ")")))))
parts-IsClean n symbol description hn hs hd = append-IsClean n _ hn (
    append-IsClean (text " ") _ (omega arith) (
      append-IsClean symbol _ hs (
        append-IsClean (text " (") _ (omega arith)
          (append-IsClean description (text ")") hd (omega arith)))))

pub decimal_ℤ-IsClean : (n : ℤ) → IsClean (decimal_ℤ n)
decimal_ℤ-IsClean n = printable-IsClean (decimal_ℤ n) (decimal_ℤ-ArePrintable n)

pub left_aligned-IsClean : (width : ℕ) (s : Text) → IsClean s → IsClean (left_aligned width s)
left_aligned-IsClean width s h =
    append-IsClean s (spaces (width - char_count s)) h (spaces-IsClean (width - char_count s))

pub bracketed-IsClean : (pid : ℤ) → IsClean (bracketed pid)
bracketed-IsClean pid =
    append-IsClean (text "[") _ (omega arith)
      (append-IsClean (decimal_ℤ pid) (text "]") (decimal_ℤ-IsClean pid) (omega arith))

pub args_joined-IsClean :
    (args : List (Text × DecodedArg))
    → All (λ a. HasCleanNames a.1) args
    → All IsClean (map (λ a. render_arg_text a.1) args)
args_joined-IsClean [] h = tt
args_joined-IsClean (a ∷ args) h = (render_arg_text-IsClean a.1 h.0, args_joined-IsClean args h.1)

-- Styles put no newline around a text.
pub record KeepsLines (c : Colors) : Type 0 where
  pub styled_clean : (st : c.Style) (s : Text) → IsClean s → IsClean (c.styled st s)
  pub dimmed_clean : (s : Text) → IsClean s → IsClean (c.dimmed s)
  pub bold_clean : (s : Text) → IsClean s → IsClean (c.bold s)
  pub red_clean : (s : Text) → IsClean s → IsClean (c.red s)

-- The texts of an errno are clean.
abbrev pub CleanErrno : Option (Text × Text) → Type 0
CleanErrno none = Unit
CleanErrno (some (symbol, description)) = IsClean symbol × IsClean description

pub guarded-CleanErrno :
    (b : Bool) (errno : Option (Text × Text))
    → CleanErrno errno
    → CleanErrno (if b then errno else none)
guarded-CleanErrno true errno h = h
guarded-CleanErrno false errno h = tt

module _ (c : Colors) (keeps : KeepsLines c) where
  pub ret_text-IsClean :
      (ret : ℤ) (color dim : Bool) (errno : Option (Text × Text))
      → CleanErrno errno
      → IsClean (ret_text c ret color dim errno)
  ret_text-IsClean ret color true (some (symbol, description)) (hs, hd) =
      parts-IsClean (c.dimmed (decimal_ℤ ret)) (c.dimmed symbol) (c.dimmed description)
        (keeps.dimmed_clean _ (decimal_ℤ-IsClean ret)) (keeps.dimmed_clean symbol hs)
        (keeps.dimmed_clean description hd)
  ret_text-IsClean ret true false (some (symbol, description)) (hs, hd) =
      parts-IsClean (c.red (c.bold (decimal_ℤ ret))) (c.red (c.bold symbol)) description
        (keeps.red_clean _ (keeps.bold_clean _ (decimal_ℤ-IsClean ret)))
        (keeps.red_clean _ (keeps.bold_clean symbol hs)) hd
  ret_text-IsClean ret false false (some (symbol, description)) (hs, hd) =
      parts-IsClean (decimal_ℤ ret) symbol description (decimal_ℤ-IsClean ret) hs hd
  ret_text-IsClean ret color true none h = keeps.dimmed_clean _ (decimal_ℤ-IsClean ret)
  ret_text-IsClean ret true false none h = keeps.bold_clean _ (decimal_ℤ-IsClean ret)
  ret_text-IsClean ret false false none h = decimal_ℤ-IsClean ret
