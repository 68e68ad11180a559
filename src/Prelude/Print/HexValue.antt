-- ===== src/Prelude/Print/HexValue.antt =====
-- Hexadecimal digits read back.
use Prim.Native.Nat.{ℕ, zero, suc, ◌+◌, ◌-◌, ◌*◌, ◌/◌, ◌%◌, ◌≤◌, ◌<◌}
use mathlib.Core.Path.{◌≡◌, refl, ◌∙◌}
use mathlib.Core.Logic.{inl, inr, ◌⊎◌}
use mathlib.Core.List.{[], ◌∷◌, ◌++◌}
use native.Mathlib.Nat.{mod-lt}
use native.Mathlib.Omega.{arith}
use loi.Prelude.Tests.{ltb, ltb→lt, Bool-cases, if◌then◌else◌}
use loi.Prelude.Lists.{All, All-append}
use loi.Prelude.Text.{Text}
use loi.Prelude.Print.{digit, digits_fuel, digits, hex}

-- The digits 0 to 9 and a to f.
abbrev pub IsHexDigit : ℕ → Type 0
IsHexDigit b = ((48 ≤ b) × (b < 58)) ⊎ ((97 ≤ b) × (b < 103))

abbrev pub digit_value : ℕ → ℕ
digit_value b = if ltb b 58 then b - 48 else b - 87

-- The value of digits, after others of the value given.
abbrev pub hex_value : ℕ → Text → ℕ
hex_value acc [] = acc
hex_value acc (b ∷ s) = hex_value (acc * 16 + digit_value b) s

hex_value-append : (acc : ℕ) (s t : Text) → hex_value acc (s ++ t) ≡ hex_value (hex_value acc s) t
hex_value-append acc [] t = refl
hex_value-append acc (b ∷ s) t = hex_value-append (acc * 16 + digit_value b) s t

digit_value-digit : (d : ℕ) → d < 16 → digit_value (digit d) ≡ d
digit_value-digit d h = ground arith

digit-IsHexDigit : (d : ℕ) → d < 16 → IsHexDigit (digit d)
digit-IsHexDigit d h = elim (Bool-cases (ltb d 10)) [
  | inl low ↦ inl (ground arith)
  | inr high ↦ inr (ground arith)
]

hex_value-digits_fuel : (f n : ℕ) → n < f → hex_value 0 (digits_fuel 16 f n) ≡ n
unfolding digits_fuel
hex_value-digits_fuel zero n h = omega arith
hex_value-digits_fuel (suc f) n h = elim (Bool-cases (ltb n 16)) [
  | inl last ↦
      rw (last, digits_fuel) (let d = digit_value-digit n (ltb→lt n 16 last) in omega (arith, d))
  | inr more ↦
      rw (more, digits_fuel)
        (hex_value-append 0 (digits_fuel 16 f (n / 16)) (digit (n % 16) ∷ [])
          ∙ rw (hex_value-digits_fuel f (n / 16) (ground arith))
              (let d = digit_value-digit (n % 16) (mod-lt n (omega arith)) in omega (arith, d)))
]

digits_fuel-IsHexDigit : (f n : ℕ) → All IsHexDigit (digits_fuel 16 f n)
unfolding digits_fuel
digits_fuel-IsHexDigit zero n = tt
digits_fuel-IsHexDigit (suc f) n = elim (Bool-cases (ltb n 16)) [
  | inl last ↦ rw (last, digits_fuel) (digit-IsHexDigit n (ltb→lt n 16 last), tt)
  | inr more ↦
      rw (more, digits_fuel)
        (All-append IsHexDigit (digits_fuel 16 f (n / 16)) (digit (n % 16) ∷ [])
          (digits_fuel-IsHexDigit f (n / 16))
          (digit-IsHexDigit (n % 16) (mod-lt n (omega arith)), tt))
]

-- The digits that a number is printed with have its value.
pub hex_value-hex : (n : ℕ) → hex_value 0 (hex n) ≡ n
unfolding hex digits
hex_value-hex n = hex_value-digits_fuel (suc n) n (omega arith)

pub hex-IsHexDigit : (n : ℕ) → All IsHexDigit (hex n)
unfolding hex digits
hex-IsHexDigit n = digits_fuel-IsHexDigit (suc n) n
