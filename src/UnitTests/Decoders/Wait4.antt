-- ===== src/UnitTests/Decoders/Wait4.antt =====
-- The unit tests of crates/loi-syscalls/src/decoders/wait4.rs.
use loi.Prelude.{ℕ, ◌≡◌, refl, Bool, true, List, [], ◌∷◌, all}
use loi.Prelude.Int.{ℤ, pos, negsuc, eq_ℤ}
use loi.Prelude.Text.{text}
use loi.Syscalls.Decoder.{DecodedCall, int, hex, ptr, c_int_to_u64}
use loi.Syscalls.Decoder.Flags.{names}
use loi.Scenarios.Host.{linux_x86_64}
use loi.UnitTests.Decoders.{
  Buffer, address_of, unsigned, ctx_of, decode_with, on_call, arg_is, on_names,
}
use loi.Syscalls.Decoders.Processes.{wait4}

-- `x as u64` of a constant of `libc`.
unfoldable cast : ℤ → ℕ
unfolding c_int_to_u64
cast = c_int_to_u64

-- The bytes of 0x12345678, the lowest first.
abbrev status : Buffer
status = (3, 0x78 ∷ 0x56 ∷ 0x34 ∷ 0x12 ∷ [])

-- The call for any child: `u64::MAX` is the number -1.
abbrev on_wait4 : ℕ → ℕ → ℕ → ℤ → (DecodedCall → Bool) → Bool
on_wait4 wstatus options rusage ret =
    on_call (
      decode_with wait4 (status ∷ []) (ctx_of (unsigned (negsuc 0)) wstatus options rusage 0 0 ret))

abbrev wait4_decoder_with_wnohang_option_produces_flag_name : Bool
wait4_decoder_with_wnohang_option_produces_flag_name =
    on_wait4 0 (cast linux_x86_64.wnohang) 0 (pos 0)
      (on_names 2 (λ got. names (text "WNOHANG") got))

abbrev wait4_decoder_reads_wstatus_pointee_as_hex_when_ret_positive : Bool
wait4_decoder_reads_wstatus_pointee_as_hex_when_ret_positive =
    on_wait4 (address_of status) 0 0 (pos 4242) (arg_is 1 (hex 0x12345678))

abbrev wait4_decoder_leaves_wstatus_as_ptr_when_ret_zero : Bool
wait4_decoder_leaves_wstatus_as_ptr_when_ret_zero =
    on_wait4 0x1000 0 0 (pos 0) (arg_is 1 (ptr 0x1000))

abbrev wait4_decoder_renders_minus_one_pid_as_int_neg_one : Bool
wait4_decoder_renders_minus_one_pid_as_int_neg_one =
    on_wait4 0 0 0 (pos 0) (arg_is 0 (int (negsuc 0)))

abbrev wait4_decoder_renders_rusage_as_ptr : Bool
wait4_decoder_renders_rusage_as_ptr = on_wait4 0 0 0xdeadface (pos 0) (arg_is 3 (ptr 0xdeadface))

abbrev suite : List Bool
suite =
    wait4_decoder_with_wnohang_option_produces_flag_name
    ∷ wait4_decoder_reads_wstatus_pointee_as_hex_when_ret_positive
    ∷ wait4_decoder_leaves_wstatus_as_ptr_when_ret_zero
    ∷ wait4_decoder_renders_minus_one_pid_as_int_neg_one ∷ wait4_decoder_renders_rusage_as_ptr ∷ []

suite_passes : all (λ t. t) suite ≡ true
unfolding decode_with cast eq_ℤ
suite_passes = refl
