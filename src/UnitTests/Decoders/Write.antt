-- ===== src/UnitTests/Decoders/Write.antt =====
-- The unit tests of crates/loi-syscalls/src/decoders/write.rs.
use loi.Prelude.{
  ℕ, ◌≡◌, refl, Bool, true, List, [], ◌∷◌, all, length, take, is_empty, ◌==◌, replicate,
}
use loi.Prelude.Int.{ℤ, pos, negsuc, eq_ℤ}
use loi.Prelude.Text.{text, text_beq}
use loi.Syscalls.Decoder.{DecodeCtx, DecodedCall, fd, num, uint}
use loi.UnitTests.Support.{texts_beq}
use loi.UnitTests.Decoders.{
  Buffer, address_of, ctx_of, decode_with, on_call, is_memory_error, labels, arg_is, bytes_arg,
  returns, counted,
}
use loi.Syscalls.Decoders.Files.{max_inline_bytes, write}

abbrev ctx_for : Buffer → ℕ → ℕ → ℤ → DecodeCtx
ctx_for buf number count ret = ctx_of number (address_of buf) count 0 0 0 ret

-- The call on a buffer of these bytes, with an assertion on it. Memory goes on after the buffer.
abbrev on_buffer : List ℕ → ℕ → ℕ → ℤ → (DecodedCall → Bool) → Bool
on_buffer bs number count ret =
    on_call (decode_with write ((3, bs) ∷ (4, []) ∷ []) (ctx_for (3, bs) number count ret))

-- The call whose buffer is not mapped.
abbrev on_unmapped : ℕ → ℕ → ℤ → (DecodedCall → Bool) → Bool
on_unmapped number count ret = on_call (decode_with write [] (ctx_of number 0x1 count 0 0 0 ret))

abbrev decoder_emits_three_labeled_args_in_order : Bool
decoder_emits_three_labeled_args_in_order =
    on_buffer [] 1 0 (pos 0)
      (λ call. texts_beq (labels call) (text "fd" ∷ text "buf" ∷ text "count" ∷ []))

abbrev decoder_decodes_fd_as_num : Bool
decoder_decodes_fd_as_num = on_buffer [] 1 0 (pos 0) (arg_is 0 (fd (num 1)))

abbrev decoder_reads_synthetic_buffer_of_hello : Bool
decoder_reads_synthetic_buffer_of_hello =
    on_buffer (text "hello") 1 5 (pos 5)
      (bytes_arg (λ inline total. text_beq inline (text "hello")))

abbrev decoder_synthetic_buffer_preserves_total_count : Bool
decoder_synthetic_buffer_preserves_total_count =
    on_buffer (text "hello") 1 5 (pos 5) (bytes_arg (λ inline total. total == 5))

abbrev decoder_truncates_inline_at_max_inline_bytes : Bool
decoder_truncates_inline_at_max_inline_bytes =
    on_buffer (replicate 256 0xcd) 1 256 (pos 256)
      (bytes_arg (λ inline total. length inline == max_inline_bytes))

abbrev decoder_truncated_inline_matches_buffer_prefix : Bool
decoder_truncated_inline_matches_buffer_prefix =
    on_buffer (replicate 256 0xcd) 1 256 (pos 256)
      (bytes_arg (λ inline total. text_beq inline (take max_inline_bytes (replicate 256 0xcd))))

abbrev decoder_truncated_total_preserves_original_count : Bool
decoder_truncated_total_preserves_original_count =
    on_buffer (replicate 256 0xcd) 1 256 (pos 256) (bytes_arg (λ inline total. total == 256))

abbrev decoder_with_negative_ret_still_reads_buffer : Bool
decoder_with_negative_ret_still_reads_buffer =
    on_buffer (text "payload") 1 7 (negsuc 31)
      (bytes_arg (λ inline total. text_beq inline (text "payload")))

abbrev decoder_with_negative_ret_keeps_total_count : Bool
decoder_with_negative_ret_keeps_total_count =
    on_buffer (text "payload") 1 7 (negsuc 31) (bytes_arg (λ inline total. total == 7))

abbrev decoder_with_zero_count_yields_empty_inline : Bool
decoder_with_zero_count_yields_empty_inline =
    on_unmapped 1 0 (pos 0) (bytes_arg (λ inline total. is_empty inline))

abbrev decoder_with_zero_count_keeps_total_count : Bool
decoder_with_zero_count_keeps_total_count =
    on_unmapped 1 0 (pos 0) (bytes_arg (λ inline total. total == 0))

abbrev decoder_with_partial_write_caps_inline_at_ret : Bool
decoder_with_partial_write_caps_inline_at_ret =
    on_buffer (counted 0 32) 1 32 (pos 8)
      (bytes_arg (λ inline total. text_beq inline (take 8 (counted 0 32))))

abbrev decoder_with_partial_write_keeps_total_count : Bool
decoder_with_partial_write_keeps_total_count =
    on_buffer (counted 0 32) 1 32 (pos 8) (bytes_arg (λ inline total. total == 32))

abbrev decoder_passes_through_ret_value : Bool
decoder_passes_through_ret_value = on_buffer (text "abcd") 1 4 (pos 4) (returns (pos 4))

abbrev decoder_renders_count_as_uint : Bool
decoder_renders_count_as_uint = on_buffer [] 1 8192 (pos 0) (arg_is 2 (uint 8192))

abbrev bad_buf_addr_with_nonzero_count_returns_decode_error : Bool
bad_buf_addr_with_nonzero_count_returns_decode_error =
    is_memory_error (decode_with write [] (ctx_of 1 0x1 4096 0 0 0 (negsuc 0)))

abbrev suite : List Bool
suite =
    decoder_emits_three_labeled_args_in_order ∷ decoder_decodes_fd_as_num
    ∷ decoder_reads_synthetic_buffer_of_hello ∷ decoder_synthetic_buffer_preserves_total_count
    ∷ decoder_truncates_inline_at_max_inline_bytes ∷ decoder_truncated_inline_matches_buffer_prefix
    ∷ decoder_truncated_total_preserves_original_count
    ∷ decoder_with_negative_ret_still_reads_buffer ∷ decoder_with_negative_ret_keeps_total_count
    ∷ decoder_with_zero_count_yields_empty_inline ∷ decoder_with_zero_count_keeps_total_count
    ∷ decoder_with_partial_write_caps_inline_at_ret ∷ decoder_with_partial_write_keeps_total_count
    ∷ decoder_passes_through_ret_value ∷ decoder_renders_count_as_uint
    ∷ bad_buf_addr_with_nonzero_count_returns_decode_error ∷ []

suite_passes : all (λ t. t) suite ≡ true
unfolding decode_with eq_ℤ
suite_passes = refl
