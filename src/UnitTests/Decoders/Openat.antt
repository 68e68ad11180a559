-- ===== src/UnitTests/Decoders/Openat.antt =====
-- The unit tests of crates/loi-syscalls/src/decoders/openat.rs.
use Prim.Native.Nat.{bit_or}
use loi.Prelude.{ℕ, ◌&&◌, not, ◌≡◌, refl, Bool, true, List, [], ◌∷◌, all}
use loi.Prelude.Int.{ℤ, pos, negsuc, eq_ℤ}
use loi.Prelude.Text.{Text, text}
use loi.Syscalls.Decoder.{
  DecodeCtx, DecodedCall, path, fd, at_fdcwd, num, flags, mode, c_int_to_u64,
}
use loi.Syscalls.Decoder.Flags.{names}
use loi.Syscalls.Decoders.Files.{
  open_at, decode_open_flags, access_mode_name, push_open_flags, open_flags_table, o_tmpfile_mask,
  o_directory_mask,
}
use loi.Scenarios.Host.{linux_x86_64}
use loi.UnitTests.Support.{texts_beq}
use loi.UnitTests.Decoders.{
  Buffer, address_of, c_string, unsigned, ctx_of, decode_with, on_call, is_memory_error, labels,
  arg_is, on_names, returns,
}

abbrev c_path : Text → Buffer
c_path p = (3, c_string p)

abbrev ctx_with_path : Buffer → ℕ → ℕ → ℕ → ℤ → DecodeCtx
ctx_with_path p dirfd raw m ret = ctx_of dirfd (address_of p) raw m 0 0 ret

-- The call on a path, with an assertion on it.
abbrev on_path : Text → ℕ → ℕ → ℕ → ℤ → (DecodedCall → Bool) → Bool
on_path p dirfd raw m ret =
    on_call (decode_with open_at (c_path p ∷ []) (ctx_with_path (c_path p) dirfd raw m ret))

abbrev basic_call : (DecodedCall → Bool) → Bool
basic_call = on_path (text "/tmp/x") 3 0 0 (pos 7)

-- `libc::X as u64`
unfoldable cast : ℤ → ℕ
unfolding c_int_to_u64
cast = c_int_to_u64

unfoldable named : ℕ → List Text
unfolding decode_open_flags access_mode_name push_open_flags open_flags_table o_tmpfile_mask
    o_directory_mask c_int_to_u64
named = decode_open_flags linux_x86_64

abbrev decoder_emits_four_labeled_args_in_order : Bool
decoder_emits_four_labeled_args_in_order = basic_call (λ call.
    texts_beq (labels call) (text "dirfd" ∷ text "pathname" ∷ text "flags" ∷ text "mode" ∷ []))

abbrev decoder_decodes_dirfd_as_num : Bool
decoder_decodes_dirfd_as_num = basic_call (arg_is 0 (fd (num 3)))

abbrev decoder_reads_pathname_from_tracee_memory : Bool
decoder_reads_pathname_from_tracee_memory = basic_call (arg_is 1 (path (text "/tmp/x")))

abbrev decoder_renders_default_flags_as_rdonly : Bool
decoder_renders_default_flags_as_rdonly = basic_call (arg_is 2 (flags (text "O_RDONLY" ∷ [])))

abbrev decoder_passes_through_ret_value : Bool
decoder_passes_through_ret_value = basic_call (returns (pos 7))

abbrev at_fdcwd_renders_as_label_not_number : Bool
at_fdcwd_renders_as_label_not_number =
    on_path (text "/etc/hosts") (unsigned (negsuc 99)) 0 0 (pos 5) (arg_is 0 (fd at_fdcwd))

-- 0o644 is 420.
abbrev create_wronly_trunc_produces_all_three_flags : Bool
create_wronly_trunc_produces_all_three_flags =
    on_path (text "/tmp/out") (unsigned (negsuc 99))
      (bit_or (cast linux_x86_64.o_creat) (bit_or 1 (cast linux_x86_64.o_trunc))) 420 (pos 9)
      (λ call.
        on_names 2
          (λ raw.
            names (text "O_WRONLY") raw
            && (names (text "O_CREAT") raw && names (text "O_TRUNC") raw))
          call
        && arg_is 3 (mode 420) call)

abbrev bad_pathname_addr_returns_decode_error : Bool
bad_pathname_addr_returns_decode_error =
    is_memory_error (decode_with open_at [] (ctx_of (unsigned (negsuc 99)) 0x1 0 0 0 0 (negsuc 0)))

abbrev decode_open_flags_empty_yields_only_access_mode : Bool
decode_open_flags_empty_yields_only_access_mode = texts_beq (named 0) (text "O_RDONLY" ∷ [])

abbrev decode_open_flags_rdwr_alone_renders_correctly : Bool
decode_open_flags_rdwr_alone_renders_correctly = texts_beq (named 2) (text "O_RDWR" ∷ [])

abbrev o_tmpfile_does_not_emit_o_directory : Bool
o_tmpfile_does_not_emit_o_directory =
    let got = named (bit_or (cast linux_x86_64.o_tmpfile) 1) in
    names (text "O_TMPFILE") got && not (names (text "O_DIRECTORY") got)

abbrev explicit_o_directory_still_emits_when_o_tmpfile_unset : Bool
explicit_o_directory_still_emits_when_o_tmpfile_unset =
    let got = named (cast linux_x86_64.o_directory) in
    names (text "O_DIRECTORY") got && not (names (text "O_TMPFILE") got)

abbrev suite : List Bool
suite =
    decoder_emits_four_labeled_args_in_order ∷ decoder_decodes_dirfd_as_num
    ∷ decoder_reads_pathname_from_tracee_memory ∷ decoder_renders_default_flags_as_rdonly
    ∷ decoder_passes_through_ret_value ∷ at_fdcwd_renders_as_label_not_number
    ∷ create_wronly_trunc_produces_all_three_flags ∷ bad_pathname_addr_returns_decode_error
    ∷ decode_open_flags_empty_yields_only_access_mode
    ∷ decode_open_flags_rdwr_alone_renders_correctly ∷ o_tmpfile_does_not_emit_o_directory
    ∷ explicit_o_directory_still_emits_when_o_tmpfile_unset ∷ []

suite_passes : all (λ t. t) suite ≡ true
unfolding decode_with named cast eq_ℤ
suite_passes = refl
