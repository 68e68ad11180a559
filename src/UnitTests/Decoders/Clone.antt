-- ===== src/UnitTests/Decoders/Clone.antt =====
-- The unit tests of crates/loi-syscalls/src/decoders/clone.rs.
use Prim.Native.Nat.{bit_or}
use loi.Prelude.{ℕ, ◌&&◌, ◌≡◌, refl, Bool, true, List, [], ◌∷◌, all}
use loi.Prelude.Int.{ℤ, pos, eq_ℤ}
use loi.Prelude.Text.{Text, text}
use loi.Syscalls.Decoder.{DecodeCtx, DecodedCall, ptr, c_int_to_u64}
use loi.Syscalls.Decoder.Flags.{names}
use loi.Scenarios.Host.{linux_x86_64}
use loi.UnitTests.Decoders.{ctx_of, decode_with, on_call, arg_is, on_names, returns}
use loi.Syscalls.Decoders.Processes.{clone, x86_64}

-- `x as u64` of a constant of `libc`.
unfoldable cast : ℤ → ℕ
unfolding c_int_to_u64
cast = c_int_to_u64

abbrev ctx_for : ℕ → DecodeCtx
ctx_for raw = ctx_of raw 0x1000 0x2000 0x3000 0x4000 0 (pos 1234)

abbrev on_clone : ℕ → (DecodedCall → Bool) → Bool
on_clone raw = on_call (decode_with (clone x86_64) [] (ctx_for raw))

-- The names of the flags, with an assertion on them.
abbrev flag_names : (List Text → Bool) → DecodedCall → Bool
flag_names = on_names 0

abbrev clone_decoder_with_vm_fs_files_produces_all_three_flag_names : Bool
clone_decoder_with_vm_fs_files_produces_all_three_flag_names =
    on_clone
      (bit_or (cast linux_x86_64.clone_vm)
        (bit_or (cast linux_x86_64.clone_fs) (cast linux_x86_64.clone_files)))
      (flag_names (λ got.
        names (text "CLONE_VM") got
        && (names (text "CLONE_FS") got && names (text "CLONE_FILES") got)))

abbrev clone_decoder_with_newns_newuts_produces_namespace_flag_names : Bool
clone_decoder_with_newns_newuts_produces_namespace_flag_names =
    on_clone (bit_or (cast linux_x86_64.clone_newns) (cast linux_x86_64.clone_newuts))
      (flag_names (λ got. names (text "CLONE_NEWNS") got && names (text "CLONE_NEWUTS") got))

abbrev clone_decoder_renders_pointer_args_as_ptr : Bool
clone_decoder_renders_pointer_args_as_ptr =
    on_clone 0 (λ call. arg_is 1 (ptr 0x1000) call && arg_is 2 (ptr 0x2000) call)

abbrev clone_decoder_passes_through_ret_value : Bool
clone_decoder_passes_through_ret_value = on_clone 0 (returns (pos 1234))

abbrev suite : List Bool
suite =
    clone_decoder_with_vm_fs_files_produces_all_three_flag_names
    ∷ clone_decoder_with_newns_newuts_produces_namespace_flag_names
    ∷ clone_decoder_renders_pointer_args_as_ptr ∷ clone_decoder_passes_through_ret_value ∷ []

suite_passes : all (λ t. t) suite ≡ true
unfolding decode_with cast eq_ℤ
suite_passes = refl
