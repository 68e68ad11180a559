-- ===== src/UnitTests/Decoders/Close.antt =====
-- The unit tests of crates/loi-syscalls/src/decoders/close.rs.
use loi.Prelude.{ℕ, ◌&&◌, ◌≡◌, refl, Bool, true, List, [], ◌∷◌, all}
use loi.Prelude.Int.{ℤ, pos, negsuc, eq_ℤ}
use loi.Prelude.Text.{text}
use loi.Syscalls.Decoder.{DecodeCtx, DecodedCall, fd, invalid, num}
use loi.UnitTests.Support.{texts_beq}
use loi.UnitTests.Decoders.{unsigned, ctx_of, decode_with, on_call, labels, arg_is, returns}
use loi.Syscalls.Decoders.Files.{close}

abbrev ctx_for : ℕ → ℤ → DecodeCtx
ctx_for number ret = ctx_of number 0 0 0 0 0 ret

abbrev on_close : ℕ → ℤ → (DecodedCall → Bool) → Bool
on_close number ret = on_call (decode_with close [] (ctx_for number ret))

abbrev decoder_emits_single_fd_arg : Bool
decoder_emits_single_fd_arg =
    on_close 3 (pos 0)
      (λ call. texts_beq (labels call) (text "fd" ∷ []) && arg_is 0 (fd (num 3)) call)

abbrev decoder_passes_through_zero_ret : Bool
decoder_passes_through_zero_ret = on_close 3 (pos 0) (returns (pos 0))

abbrev decoder_preserves_negative_ret_and_renders_fd_invalid : Bool
decoder_preserves_negative_ret_and_renders_fd_invalid =
    on_close (unsigned (negsuc 0)) (negsuc 8)
      (λ call. returns (negsuc 8) call && arg_is 0 (fd invalid) call)

abbrev suite : List Bool
suite =
    decoder_emits_single_fd_arg ∷ decoder_passes_through_zero_ret
    ∷ decoder_preserves_negative_ret_and_renders_fd_invalid ∷ []

suite_passes : all (λ t. t) suite ≡ true
unfolding decode_with eq_ℤ
suite_passes = refl
