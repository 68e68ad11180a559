-- ===== src/Syscalls/Decoders/CloneFlags.antt =====
-- Which names the flags of `clone` get.
use loi.Prelude.{ℕ, ◌-◌, ◌^◌, ◌<◌, ◌≡◌, false, arith}
use loi.Prelude.Int.{ℤ, pos, negsuc, bits_of, IsI32}
use loi.Prelude.Text.{text}
use loi.Prelude.Word.{bit_and-le}
use loi.Syscalls.Libc.{Libc}
use loi.Syscalls.Decoder.{c_int_to_u64, is_set, decode_flags}
use loi.Syscalls.Decoder.Flags.{names, names-decode_flags-eq-has_set}
use loi.Syscalls.Decoders.Processes.{clone_table}

-- The widening of a c_int whose top bit is set has its upper 32 bits set too.
c_int_to_u64_top :
    (x : ℤ) → IsI32 x → bits_of (2 ^ 32) x ≡ 2 ^ 31 → c_int_to_u64 x ≡ 2 ^ 64 - 2 ^ 31
unfolding c_int_to_u64
c_int_to_u64_top (pos n) i32 top = absurd (omega arith)
c_int_to_u64_top (negsuc n) i32 top = omega arith

not_set_above : (raw mask : ℕ) → raw < mask → is_set raw mask ≡ false
not_set_above raw mask h = ground (arith, bit_and-le raw mask)

-- Where CLONE_IO is a c_int with the kernel's bit 31, it is never named for flags of 32 bits: the
-- conversion of the table extends its sign.
pub clone_io_never_named :
    (l : Libc) (raw : ℕ)
    → IsI32 l.clone_io
    → bits_of (2 ^ 32) l.clone_io ≡ 2 ^ 31
    → raw < 2 ^ 32
    → names (text "CLONE_IO") (decode_flags raw (clone_table l)) ≡ false
unfolding clone_table
clone_io_never_named l raw i32 top fits = ground (
  arith,
  names-decode_flags-eq-has_set (text "CLONE_IO") raw (clone_table l),
  c_int_to_u64_top l.clone_io i32 top,
  not_set_above raw (c_int_to_u64 l.clone_io),
)
