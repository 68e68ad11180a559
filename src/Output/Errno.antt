-- ===== src/Output/Errno.antt =====
-- Which results of a call are named as errors.
use loi.Prelude.{
  ◌-◌, ◌^◌, ◌≡◌, refl, ◌∙◌, Option, none, Bool, false, suc, ltb, ◌==◌, if◌then◌else◌, arith,
}
use loi.Prelude.Int.{ℤ, pos, negsuc, IsI64}
use loi.Prelude.Result.{ok, panic}
use loi.Prelude.Text.{Text}
use loi.Prelude.Word.{Profile, dev, release}
use loi.Output.{ErrnoTable, errno_of_ret}

-- The errno of a result, by what the kernel promises: minus a number from 1 to 2^31 - 1.
abbrev pub errno_named : ErrnoTable → ℤ → Option (Text × Text)
errno_named table (pos n) = none
errno_named table (negsuc n) = if ltb n (2 ^ 31 - 1) then table (suc n) else none

abbrev pub is_least : ℤ → Bool
is_least (pos n) = false
is_least (negsuc n) = n == 2 ^ 63 - 1

-- Of a signed 64-bit result, the errno named is the table's for minus the result, if this is from 1
-- to 2^31 - 1, and none else. In a build with overflow checks the least result panics instead.
pub errno_of_ret_lem :
    (profile : Profile) (table : ErrnoTable) (ret : ℤ)
    → IsI64 ret
    → errno_of_ret profile table ret ≡ elim profile [
      | dev ↦ if is_least ret then panic else ok (errno_named table ret)
      | release ↦ ok (errno_named table ret)
    ]
unfolding errno_of_ret
errno_of_ret_lem dev table (pos n) i64 = refl
errno_of_ret_lem release table (pos n) i64 = refl
errno_of_ret_lem dev table (negsuc n) i64 = ground arith
errno_of_ret_lem release table (negsuc n) i64 = ground arith

-- No build panics on another result than the least one.
pub errno_of_ret_named :
    (profile : Profile) (table : ErrnoTable) (ret : ℤ)
    → IsI64 ret
    → is_least ret ≡ false
    → errno_of_ret profile table ret ≡ ok (errno_named table ret)
errno_of_ret_named dev table ret i64 least = errno_of_ret_lem dev table ret i64 ∙ rw least refl
errno_of_ret_named release table ret i64 least = errno_of_ret_lem release table ret i64
