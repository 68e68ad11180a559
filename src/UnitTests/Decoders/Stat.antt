-- ===== src/UnitTests/Decoders/Stat.antt =====
-- The unit tests of crates/loi-syscalls/src/decoders/stat.rs.
use loi.Prelude.{ℕ, ◌&&◌, ◌≡◌, refl, Bool, true, List, [], ◌∷◌, all}
use loi.Prelude.Int.{ℤ, pos, negsuc}
use loi.Prelude.Text.{Text, text}
use loi.Syscalls.Decoder.{DecodedCall, path, fd, at_fdcwd, num, ptr, c_int_to_u64}
use loi.Syscalls.Decoder.Flags.{names}
use loi.Scenarios.Host.{linux_x86_64}
use loi.UnitTests.Decoders.{
  Buffer, address_of, c_string, unsigned, ctx_of, decode_with, on_call, is_memory_error, arg_is,
  on_names,
}
use loi.Syscalls.Decoders.Stat.{stat, fstat, statx}

-- `x as u64` of a constant of `libc`.
unfoldable cast : ℤ → ℕ
unfolding c_int_to_u64
cast = c_int_to_u64

abbrev c_path : Text → Buffer
c_path p = (3, c_string p)

-- `statx` of foo in the working directory.
abbrev on_statx : ℕ → ℕ → (DecodedCall → Bool) → Bool
on_statx raw mask = on_call (
    decode_with statx (c_path (text "foo") ∷ [])
      (ctx_of (unsigned (negsuc 99)) (address_of (c_path (text "foo"))) raw mask 0x1000 0 (pos 0)))

abbrev stat_decoder_reads_path_from_synthetic_args : Bool
stat_decoder_reads_path_from_synthetic_args =
    let p = c_path (text "/etc/hosts") in
    on_call (decode_with stat (p ∷ []) (ctx_of (address_of p) 0x1000 0 0 0 0 (pos 0)))
      (λ call. arg_is 0 (path (text "/etc/hosts")) call && arg_is 1 (ptr 0x1000) call)

abbrev fstat_decoder_with_fd_3_produces_fd_num : Bool
fstat_decoder_with_fd_3_produces_fd_num =
    on_call (decode_with fstat [] (ctx_of 3 0x1000 0 0 0 0 (pos 0))) (arg_is 0 (fd (num 3)))

abbrev statx_decoder_with_at_fdcwd_renders_label : Bool
statx_decoder_with_at_fdcwd_renders_label = on_statx 0 0 (arg_is 0 (fd at_fdcwd))

abbrev statx_decoder_with_symlink_nofollow_decodes_flag_name : Bool
statx_decoder_with_symlink_nofollow_decodes_flag_name =
    on_statx (cast linux_x86_64.at_symlink_nofollow) 0
      (on_names 2 (λ got. names (text "AT_SYMLINK_NOFOLLOW") got))

abbrev statx_decoder_with_statx_basic_stats_mask_decodes_name : Bool
statx_decoder_with_statx_basic_stats_mask_decodes_name =
    on_statx 0 linux_x86_64.statx_basic_stats
      (on_names 3 (λ got. names (text "STATX_BASIC_STATS") got))

abbrev stat_decoder_returns_decode_error_on_memory_read_failure : Bool
stat_decoder_returns_decode_error_on_memory_read_failure =
    is_memory_error (decode_with stat [] (ctx_of 0x1 0x1000 0 0 0 0 (negsuc 0)))

abbrev suite : List Bool
suite =
    stat_decoder_reads_path_from_synthetic_args ∷ fstat_decoder_with_fd_3_produces_fd_num
    ∷ statx_decoder_with_at_fdcwd_renders_label
    ∷ statx_decoder_with_symlink_nofollow_decodes_flag_name
    ∷ statx_decoder_with_statx_basic_stats_mask_decodes_name
    ∷ stat_decoder_returns_decode_error_on_memory_read_failure ∷ []

suite_passes : all (λ t. t) suite ≡ true
unfolding decode_with cast
suite_passes = refl
