-- ===== src/Prelude/Int.antt =====
-- Rust's signed integers as ℤ over the native numbers, and the casts `as i32` and `as i64`.
use Prim.Native.Nat.{ℕ, ◌+◌, ◌-◌, ◌%◌, ◌^◌, ◌<◌}
use mathlib.Core.Path.{◌≡◌}
use mathlib.Core.Logic.{◌↔◌}
use mathlib.Core.Bool.{Bool, true, false}
use native.Mathlib.Omega.{arith}
use loi.Prelude.Tests.{ltb, ◌==◌, if◌then◌else◌, Eq}

-- `negsuc n` is -(n + 1).
pub data ℤ : Type 0 where
  pos : ℕ → ℤ
  negsuc : ℕ → ℤ

unfoldable pub eq_ℤ : ℤ → ℤ → Bool
eq_ℤ (pos a) (pos b) = a == b
eq_ℤ (negsuc a) (negsuc b) = a == b
eq_ℤ _ _ = false

pub eq_ℤ_iff : (a b : ℤ) → (eq_ℤ a b ≡ true) ↔ (a ≡ b)
unfolding eq_ℤ
eq_ℤ_iff (pos a) (pos b) = ground arith
eq_ℤ_iff (pos a) (negsuc b) = ground arith
eq_ℤ_iff (negsuc a) (pos b) = ground arith
eq_ℤ_iff (negsuc a) (negsuc b) = ground arith

instance abbrev pub int_eq : Eq ℤ
int_eq = record { beq = eq_ℤ; beq_iff = eq_ℤ_iff }

-- `x < 0` and `x > 0`.
abbrev pub is_neg : ℤ → Bool
is_neg (pos n) = false
is_neg (negsuc n) = true

abbrev pub is_pos : ℤ → Bool
is_pos (pos n) = ltb 0 n
is_pos (negsuc n) = false

abbrev pub pos_part : ℤ → ℕ
pos_part (pos n) = n
pos_part (negsuc n) = 0

-- The number that the low `w` bits of `x` stand for in two's complement.
abbrev pub signed_of : ℕ → ℕ → ℤ
signed_of half w = if ltb w half then pos w else negsuc (half + half - w - 1)

-- `x as i32` of a u64.
abbrev pub as_i32 : ℕ → ℤ
as_i32 x = signed_of (2 ^ 31) (x % 2 ^ 32)

-- `x as i64` of a u64.
abbrev pub as_i64 : ℕ → ℤ
as_i64 x = signed_of (2 ^ 63) (x % 2 ^ 64)

-- The two's complement bits of an integer, in a word of modulus `m`.
abbrev pub bits_of : ℕ → ℤ → ℕ
bits_of m (pos n) = n % m
bits_of m (negsuc n) = m - 1 - n % m

-- A value of an i64 and of an i32.
abbrev pub IsI64 : ℤ → Type 0
IsI64 (pos n) = n < 2 ^ 63
IsI64 (negsuc n) = n < 2 ^ 63

abbrev pub IsI32 : ℤ → Type 0
IsI32 (pos n) = n < 2 ^ 31
IsI32 (negsuc n) = n < 2 ^ 31

-- The cast to i32 undoes the sign extension of an i32 into a register.
pub as_i32-bits_of : (z : ℤ) → IsI32 z → as_i32 (bits_of (2 ^ 64) z) ≡ z
as_i32-bits_of (pos n) h = ground arith
as_i32-bits_of (negsuc n) h = ground arith

pub as_i64-bits_of : (z : ℤ) → IsI64 z → as_i64 (bits_of (2 ^ 64) z) ≡ z
as_i64-bits_of (pos n) h = ground arith
as_i64-bits_of (negsuc n) h = ground arith
