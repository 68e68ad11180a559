-- ===== src/Prelude/Print.antt =====
-- `format!("{n}")`, `{n:x}` and `{n:o}` of an unsigned integer: its digits in a base.
pub mod Printable
pub mod HexValue
use Prim.Native.Nat.{ℕ, zero, suc, ◌+◌, ◌/◌, ◌%◌}
use mathlib.Core.Bool.{true, false}
use mathlib.Core.List.{[], ◌∷◌, ◌++◌}
use loi.Prelude.Tests.{ltb, if◌then◌else◌}
use loi.Prelude.Text.{Text}
use loi.Prelude.Int.{ℤ, pos, negsuc}

-- The byte of a digit: 0 to 9, then a to f.
abbrev digit : ℕ → ℕ
digit d = if ltb d 10 then 48 + d else 87 + d

module _ (base : ℕ) where
  -- The fuel is more than the number of digits.
  digits_fuel : ℕ → ℕ → Text
  digits_fuel zero n = []
  digits_fuel (suc f) n = elim (ltb n base) [
    | true ↦ digit n ∷ []
    | false ↦ digits_fuel f (n / base) ++ digit (n % base) ∷ []
  ]

  unfoldable pub digits : ℕ → Text
  unfolding digits_fuel
  digits n = digits_fuel (suc n) n

-- `n.to_string()`
unfoldable pub decimal : ℕ → Text
unfolding digits
decimal n = digits 10 n

-- `i.to_string()` of a signed integer.
unfoldable pub decimal_ℤ : ℤ → Text
unfolding decimal
decimal_ℤ (pos n) = decimal n
decimal_ℤ (negsuc n) = 45 ∷ decimal (suc n)

-- `{n:x}` and `{n:o}`
unfoldable pub hex : ℕ → Text
unfolding digits
hex n = digits 16 n

unfoldable pub octal : ℕ → Text
unfolding digits
octal n = digits 8 n
