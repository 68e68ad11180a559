-- ===== src/Prelude/Word.antt =====
-- Arithmetic on u64 in the two ways that Rust compiles it, and `|` with a mask of ones.
use mathlib.Core.List.{List, [], ◌∷◌}
use Prim.Native.Nat.{
  ℕ, zero, suc, ◌+◌, ◌-◌, ◌*◌, ◌/◌, ◌%◌, ◌^◌, ◌≤◌, ◌<◌, max, min, bit_or, bit_and, digits,
  bit_or-bitwise, bit_and-bitwise,
}
use mathlib.Core.Path.{◌≡◌, refl, sym, ◌∙◌}
use native.Mathlib.Omega.{arith}
use mathlib.Core.Bool.{Bool, true, ◌&&◌}
use loi.Prelude.Tests.{◌==◌, ltb, leb, if◌then◌else◌}
use loi.Prelude.Result.{Result, ok, panic}

-- With the profile `dev` an overflow panics, with the profile `release` it wraps.
pub data Profile : Type 0 where
  dev release : Profile

abbrev overflowed {ℓ} : {E : Type ℓ} → Profile → ℕ → Result E ℕ
overflowed dev n = panic
overflowed release n = ok n

-- `a + b` and `a - b` on u64.
abbrev pub add_u64 {ℓ} : {E : Type ℓ} → Profile → ℕ → ℕ → Result E ℕ
add_u64 profile a b =
    if ltb (a + b) (2 ^ 64) then ok (a + b) else overflowed profile ((a + b) % 2 ^ 64)

abbrev pub sub_u64 {ℓ} : {E : Type ℓ} → Profile → ℕ → ℕ → Result E ℕ
sub_u64 profile a b = if leb b a then ok (a - b) else overflowed profile ((a + 2 ^ 64 - b) % 2 ^ 64)

abbrev or_digits : ℕ → ℕ → ℕ → ℕ
or_digits n a b = digits (λ b. b) max n a b

or_digits-zero : (x b : ℕ) → or_digits x 0 b ≡ b
or_digits-zero zero b = refl
or_digits-zero (suc x) b = refl

-- The digit recursion of `|` does not depend on its fuel, once that is enough.
or_digits_enough : (x y a b : ℕ) → a ≤ x → a ≤ y → or_digits x a b ≡ or_digits y a b
or_digits_enough x y zero b hx hy = or_digits-zero x b ∙ sym (or_digits-zero y b)
or_digits_enough (suc x) (suc y) (suc a) b hx hy =
    omega (arith, or_digits_enough x y (suc a / 2) (b / 2) (omega arith) (omega arith))
or_digits_enough zero y (suc a) b hx hy = absurd (omega arith)
or_digits_enough (suc x) zero (suc a) b hx hy = absurd (omega arith)

zero-bit_or : (b : ℕ) → bit_or 0 b ≡ b
zero-bit_or b = bit_or-bitwise 0 b

-- `|` digit by digit.
pub bit_or_step : (a b : ℕ) → bit_or a b ≡ bit_or (a / 2) (b / 2) * 2 + max (a % 2) (b % 2)
bit_or_step zero b = omega (arith, zero-bit_or b, zero-bit_or (b / 2))
bit_or_step (suc a) b = omega (
  arith,
  bit_or-bitwise (suc a) b,
  bit_or-bitwise (suc a / 2) (b / 2),
  or_digits_enough a (suc a / 2) (suc a / 2) (b / 2) (omega arith) (omega arith),
)

bit_or-zero_below : (n a : ℕ) → a ≤ n → bit_or a 0 ≡ a
bit_or-zero_below n zero h = refl
bit_or-zero_below zero (suc a) h = absurd (omega arith)
bit_or-zero_below (suc n) (suc a) h =
    omega (arith, bit_or_step (suc a) 0, bit_or-zero_below n (suc a / 2) (omega arith))

-- `|` with a mask of two, six and ten ones.
or_three : (a : ℕ) → bit_or a 3 ≡ a / 4 * 4 + 3
or_three a = omega (
  arith,
  bit_or_step a 3,
  bit_or_step (a / 2) 1,
  bit_or-zero_below (a / 2 / 2) (a / 2 / 2) (omega arith),
)

or_sixty_three : (a : ℕ) → bit_or a 63 ≡ a / 64 * 64 + 63
or_sixty_three a = omega (
  arith,
  bit_or_step a 63,
  bit_or_step (a / 2) 31,
  bit_or_step (a / 2 / 2) 15,
  bit_or_step (a / 2 / 2 / 2) 7,
  or_three (a / 2 / 2 / 2 / 2),
)

or_1023 : (a : ℕ) → bit_or a 1023 ≡ a / 1024 * 1024 + 1023
or_1023 a = omega (
  arith,
  bit_or_step a 1023,
  bit_or_step (a / 2) 511,
  bit_or_step (a / 2 / 2) 255,
  bit_or_step (a / 2 / 2 / 2) 127,
  or_sixty_three (a / 2 / 2 / 2 / 2),
)

-- `a | 4095` is the last address of the page of `a`.
pub bit_or_page : (a : ℕ) → bit_or a 4095 ≡ a / 4096 * 4096 + 4095
bit_or_page a = omega (arith, bit_or_step a 4095, bit_or_step (a / 2) 2047, or_1023 (a / 2 / 2))

abbrev and_digits : ℕ → ℕ → ℕ → ℕ
and_digits n a b = digits (λ b. 0) min n a b

and_digits-zero : (x b : ℕ) → and_digits x 0 b ≡ 0
and_digits-zero zero b = refl
and_digits-zero (suc x) b = refl

-- `&` by its digits is at most its first number, whatever the fuel.
and_digits-le : (x a b : ℕ) → and_digits x a b ≤ a
and_digits-le zero a b = omega arith
and_digits-le (suc x) zero b = omega arith
and_digits-le (suc x) (suc a) b = omega (arith, and_digits-le x (suc a / 2) (b / 2))

pub bit_and-le : (a b : ℕ) → bit_and a b ≤ a
bit_and-le a b = rw (bit_and-bitwise a b) (and_digits-le a a b)

pub zero-bit_and : (b : ℕ) → bit_and 0 b ≡ 0
zero-bit_and b = bit_and-bitwise 0 b

-- Whether of the lowest bits, so many, each that is set in the first number is set in the second.
abbrev pub has_bits : ℕ → ℕ → ℕ → Bool
has_bits zero mask raw = true
has_bits (suc n) mask raw = leb (mask % 2) (raw % 2) && has_bits n (mask / 2) (raw / 2)

-- A number has no bit in common with zero.
no_common_digit : (x raw : ℕ) → and_digits x raw 0 ≡ 0
no_common_digit zero raw = refl
no_common_digit (suc x) zero = refl
no_common_digit (suc x) (suc raw) = omega (arith, no_common_digit x (suc raw / 2))

-- The digits in common with a mask make the mask exactly if its bits are all there.
digits-eq-has_bits :
    (n x raw mask : ℕ)
    → raw ≤ x
    → mask < 2 ^ n
    → (and_digits x raw mask == mask) ≡ has_bits n mask raw
digits-eq-has_bits zero x raw mask enough fits =
    let empty : mask ≡ 0 = omega arith in rw empty (rw (no_common_digit x raw) refl)
digits-eq-has_bits (suc n) x zero mask enough fits = ground (
  arith,
  and_digits-zero x mask,
  and_digits-zero x (mask / 2),
  digits-eq-has_bits n x 0 (mask / 2) enough (omega arith),
)
digits-eq-has_bits (suc n) (suc x) (suc raw) mask enough fits =
    ground (arith, digits-eq-has_bits n x (suc raw / 2) (mask / 2) (omega arith) (omega arith))
digits-eq-has_bits (suc n) zero (suc raw) mask enough fits = absurd (omega arith)

-- `raw & mask == mask`, for a mask of so many bits.
pub bit_and-eq-has_bits :
    (n mask raw : ℕ) → mask < 2 ^ n → (bit_and raw mask == mask) ≡ has_bits n mask raw
bit_and-eq-has_bits n mask raw fits =
    rw (bit_and-bitwise raw mask) (digits-eq-has_bits n raw raw mask (omega arith) fits)

-- `from_ne_bytes` on the two architectures, both little-endian.
abbrev pub from_le_bytes : List ℕ → ℕ
from_le_bytes [] = 0
from_le_bytes (b ∷ bs) = b + 256 * from_le_bytes bs
