-- ===== src/Prelude/Print/Printable.antt =====
-- Bytes that are printable ASCII, and that numbers are printed with them.
use Prim.Native.Nat.{ℕ, zero, suc, ◌/◌, ◌%◌, ◌≤◌, ◌<◌}
use mathlib.Core.Path.{◌≡◌}
use mathlib.Core.Bool.{Bool, true, ◌&&◌}
use mathlib.Core.Logic.{inl, inr}
use mathlib.Core.List.{List, [], ◌∷◌, ◌++◌}
use native.Mathlib.Nat.{mod-lt}
use native.Mathlib.Omega.{arith}
use loi.Prelude.Tests.{ltb, leb, ltb→lt, Bool-cases}
use loi.Prelude.Lists.{All, All-append}
use loi.Prelude.Int.{ℤ, pos, negsuc}
use loi.Prelude.Text.{Text, join}
use loi.Prelude.Print.{digit, digits_fuel, digits, decimal, decimal_ℤ, hex, octal}

abbrev pub IsPrintable : ℕ → Type 0
IsPrintable b = (32 ≤ b) × (b < 127)

abbrev pub ArePrintable : Text → Type 0
ArePrintable = All IsPrintable

digit-IsPrintable : (d : ℕ) → d < 16 → IsPrintable (digit d)
digit-IsPrintable d h = ground arith

module _ (base : ℕ) (small : base ≤ 16) (some_base : 0 < base) where
  digits_fuel-ArePrintable : (f n : ℕ) → ArePrintable (digits_fuel base f n)
  unfolding digits_fuel
  digits_fuel-ArePrintable zero n = tt
  digits_fuel-ArePrintable (suc f) n = elim (Bool-cases (ltb n base)) [
    | inl last ↦
        rw (last, digits_fuel)
          (digit-IsPrintable n (let lt = ltb→lt n base last in omega arith), tt)
    | inr more ↦
        rw (more, digits_fuel)
          (All-append IsPrintable (digits_fuel base f (n / base)) (digit (n % base) ∷ [])
            (digits_fuel-ArePrintable f (n / base))
            (digit-IsPrintable (n % base) (let lt = mod-lt n some_base in omega arith), tt))
  ]

pub decimal-ArePrintable : (n : ℕ) → ArePrintable (decimal n)
unfolding decimal digits
decimal-ArePrintable n = digits_fuel-ArePrintable 10 (omega arith) (omega arith) (suc n) n

pub decimal_ℤ-ArePrintable : (z : ℤ) → ArePrintable (decimal_ℤ z)
unfolding decimal_ℤ
decimal_ℤ-ArePrintable (pos n) = decimal-ArePrintable n
decimal_ℤ-ArePrintable (negsuc n) = ((omega arith, omega arith), decimal-ArePrintable (suc n))

pub hex-ArePrintable : (n : ℕ) → ArePrintable (hex n)
unfolding hex digits
hex-ArePrintable n = digits_fuel-ArePrintable 16 (omega arith) (omega arith) (suc n) n

pub octal-ArePrintable : (n : ℕ) → ArePrintable (octal n)
unfolding octal digits
octal-ArePrintable n = digits_fuel-ArePrintable 8 (omega arith) (omega arith) (suc n) n

-- Whether a text is printable can be computed.
abbrev pub printable : Text → Bool
printable [] = true
printable (b ∷ s) = leb 32 b && (ltb b 127 && printable s)

pub printable-ArePrintable : (s : Text) → printable s ≡ true → ArePrintable s
printable-ArePrintable [] h = tt
printable-ArePrintable (b ∷ s) h = ground (arith, printable-ArePrintable s)

pub join-ArePrintable :
    (sep : Text) (parts : List Text)
    → ArePrintable sep
    → All ArePrintable parts
    → ArePrintable (join sep parts)
join-ArePrintable sep [] h hs = tt
join-ArePrintable sep (s ∷ []) h hs = hs.0
join-ArePrintable sep (s ∷ t ∷ rest) h hs =
    All-append IsPrintable s (sep ++ join sep (t ∷ rest)) hs.0
      (All-append IsPrintable sep (join sep (t ∷ rest)) h (join-ArePrintable sep (t ∷ rest) h hs.1))
