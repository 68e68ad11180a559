-- ===== src/UnitTests/Decoders/Mmap.antt =====
-- The unit tests of crates/loi-syscalls/src/decoders/mmap.rs.
use Prim.Native.Nat.{bit_or}
use loi.Prelude.{ℕ, ◌&&◌, ◌≡◌, refl, Bool, true, List, [], ◌∷◌, all}
use loi.Prelude.Int.{ℤ, pos}
use loi.Prelude.Text.{text}
use loi.Syscalls.Decoder.{DecodeCtx, DecodedCall, flags, hex, c_int_to_u64}
use loi.Syscalls.Decoder.Flags.{names}
use loi.Scenarios.Host.{linux_x86_64}
use loi.UnitTests.Decoders.{ctx_of, decode_with, on_call, arg_is, on_names}
use loi.Syscalls.Decoders.Maps.{mmap}

-- `x as u64` of a constant of `libc`.
unfoldable cast : ℤ → ℕ
unfolding c_int_to_u64
cast = c_int_to_u64

abbrev ctx_for : ℕ → ℕ → ℕ → ℕ → ℕ → ℕ → DecodeCtx
ctx_for a n prot raw number offset = ctx_of a n prot raw number offset (pos 0)

abbrev on_mmap : DecodeCtx → (DecodedCall → Bool) → Bool
on_mmap ctx = on_call (decode_with mmap [] ctx)

abbrev mmap_decoder_with_read_write_produces_both_flag_names : Bool
mmap_decoder_with_read_write_produces_both_flag_names =
    on_mmap
      (ctx_for 0 4096 (bit_or (cast linux_x86_64.prot_read) (cast linux_x86_64.prot_write)) 0 0 0)
      (on_names 2 (λ got. names (text "PROT_READ") got && names (text "PROT_WRITE") got))

abbrev mmap_decoder_with_prot_zero_produces_prot_none : Bool
mmap_decoder_with_prot_zero_produces_prot_none =
    on_mmap (ctx_for 0 4096 0 0 0 0) (arg_is 2 (flags (text "PROT_NONE" ∷ [])))

abbrev mmap_decoder_with_private_anonymous_produces_both_flag_names : Bool
mmap_decoder_with_private_anonymous_produces_both_flag_names =
    on_mmap
      (ctx_for 0 4096 0 (bit_or (cast linux_x86_64.map_private) (cast linux_x86_64.map_anonymous)) 0
        0)
      (on_names 3 (λ got. names (text "MAP_PRIVATE") got && names (text "MAP_ANONYMOUS") got))

abbrev mmap_decoder_renders_addr_as_hex : Bool
mmap_decoder_renders_addr_as_hex =
    on_mmap (ctx_for 0xdeadbeef 0 0 0 0 0) (arg_is 0 (hex 0xdeadbeef))

abbrev mmap_decoder_renders_offset_as_hex : Bool
mmap_decoder_renders_offset_as_hex = on_mmap (ctx_for 0 0 0 0 0 0x4000) (arg_is 5 (hex 0x4000))

abbrev suite : List Bool
suite =
    mmap_decoder_with_read_write_produces_both_flag_names
    ∷ mmap_decoder_with_prot_zero_produces_prot_none
    ∷ mmap_decoder_with_private_anonymous_produces_both_flag_names
    ∷ mmap_decoder_renders_addr_as_hex ∷ mmap_decoder_renders_offset_as_hex ∷ []

suite_passes : all (λ t. t) suite ≡ true
unfolding decode_with cast
suite_passes = refl
