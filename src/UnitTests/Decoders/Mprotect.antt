-- ===== src/UnitTests/Decoders/Mprotect.antt =====
-- The unit tests of crates/loi-syscalls/src/decoders/mprotect.rs.
use Prim.Native.Nat.{bit_or}
use loi.Prelude.{ℕ, ◌&&◌, ◌≡◌, refl, Bool, true, List, [], ◌∷◌, all}
use loi.Prelude.Int.{ℤ, pos}
use loi.Prelude.Text.{text}
use loi.Syscalls.Decoder.{DecodeCtx, DecodedCall, flags, hex, c_int_to_u64}
use loi.Syscalls.Decoder.Flags.{names}
use loi.Scenarios.Host.{linux_x86_64}
use loi.UnitTests.Decoders.{ctx_of, decode_with, on_call, arg_is, on_names}
use loi.Syscalls.Decoders.Maps.{mprotect}

-- `x as u64` of a constant of `libc`.
unfoldable cast : ℤ → ℕ
unfolding c_int_to_u64
cast = c_int_to_u64

abbrev ctx_for : ℕ → ℕ → ℕ → DecodeCtx
ctx_for a n prot = ctx_of a n prot 0 0 0 (pos 0)

abbrev on_mprotect : DecodeCtx → (DecodedCall → Bool) → Bool
on_mprotect ctx = on_call (decode_with mprotect [] ctx)

abbrev mprotect_decoder_with_read_exec_produces_both_flag_names : Bool
mprotect_decoder_with_read_exec_produces_both_flag_names =
    on_mprotect
      (ctx_for 0x1000 4096 (bit_or (cast linux_x86_64.prot_read) (cast linux_x86_64.prot_exec)))
      (on_names 2 (λ got. names (text "PROT_READ") got && names (text "PROT_EXEC") got))

abbrev mprotect_decoder_with_prot_zero_produces_prot_none : Bool
mprotect_decoder_with_prot_zero_produces_prot_none =
    on_mprotect (ctx_for 0x1000 4096 0) (arg_is 2 (flags (text "PROT_NONE" ∷ [])))

abbrev mprotect_decoder_renders_addr_as_hex : Bool
mprotect_decoder_renders_addr_as_hex =
    on_mprotect (ctx_for 0xfeedface 4096 0) (arg_is 0 (hex 0xfeedface))

abbrev suite : List Bool
suite =
    mprotect_decoder_with_read_exec_produces_both_flag_names
    ∷ mprotect_decoder_with_prot_zero_produces_prot_none ∷ mprotect_decoder_renders_addr_as_hex ∷ []

suite_passes : all (λ t. t) suite ≡ true
unfolding decode_with cast
suite_passes = refl
