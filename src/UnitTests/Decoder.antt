-- ===== src/UnitTests/Decoder.antt =====
-- The unit tests of crates/loi-syscalls/src/decoder.rs but for the one on the capacity of a vector.
use Prim.Native.Nat.{bit_or}
use loi.Prelude.{ℕ, ◌≡◌, refl, Bool, true, false, List, [], ◌∷◌, all, is_empty, ◌==◌}
use loi.Prelude.Int.{ℤ, pos, negsuc}
use loi.Prelude.Result.{Result, err, map_err}
use loi.Prelude.Text.{Text, text, text_beq}
use loi.Prelude.Word.{dev}
use loi.Memory.{truncated_cstr, read_bytes, read_cstr, scan, chunk_size}
use loi.Syscalls.Utf8.{from_utf8_lossy, is_utf8, decode_utf8, lossy_from, valid_from, start}
use loi.Syscalls.Decoder.{
  DecodeError, memory, FdRepr, at_fdcwd, invalid, num, FlagTable, decode_path, decode_fd,
  decode_flags, set_names, Host,
}
use loi.Scenarios.Host.{linux_x86_64}
use loi.Scenarios.Reading.{serve}
use loi.UnitTests.Support.{is_ok, texts_beq}
use loi.UnitTests.Decoders.{Buffer, address_of, holding, c_string, self_pid, same_fd}

-- `decode_path` of an address in this memory, with an assertion on the text.
unfoldable on_path_at : List Buffer → ℕ → (Text → Bool) → Bool
unfolding decode_path read_bytes read_cstr scan chunk_size from_utf8_lossy is_utf8 decode_utf8
    lossy_from valid_from start
on_path_at buffers addr p =
    let host : Host = record {
      profile = dev;
      readv = serve (holding buffers);
      libc = linux_x86_64;
    } in
    is_ok p (decode_path host self_pid addr)

-- `assert_eq!(decode_fd(raw), …)`
unfoldable shown_fd : ℤ → FdRepr → Bool
unfolding decode_fd
shown_fd raw f = is_ok (same_fd f) (decode_fd dev raw)

abbrev decode_path_reads_cstring_from_self : Bool
decode_path_reads_cstring_from_self =
    let cs : Buffer = (3, c_string (text "/tmp/x")) in
    on_path_at (cs ∷ []) (address_of cs) (text_beq (text "/tmp/x"))

abbrev decode_fd_at_fdcwd : Bool
decode_fd_at_fdcwd = shown_fd (negsuc 99) at_fdcwd

abbrev decode_fd_invalid : Bool
decode_fd_invalid = shown_fd (negsuc 0) invalid

abbrev decode_fd_num : Bool
decode_fd_num = shown_fd (pos 3) (num 3)

-- 0o4000 is 0x800, 0o2000000 is 0x80000 and 0o100 is 0x40.
abbrev some_flags : FlagTable
some_flags = (0x800, text "O_NONBLOCK") ∷ (0x80000, text "O_CLOEXEC") ∷ (0x40, text "O_CREAT") ∷ []

abbrev decode_flags_picks_set_bits : Bool
decode_flags_picks_set_bits =
    texts_beq (decode_flags (bit_or 0x80000 0x40) some_flags)
      (text "O_CLOEXEC" ∷ text "O_CREAT" ∷ [])

abbrev decode_flags_empty_returns_empty_vec : Bool
decode_flags_empty_returns_empty_vec = is_empty (decode_flags 0 ((0x80000, text "O_CLOEXEC") ∷ []))

abbrev decode_flags_skips_zero_mask_entries : Bool
decode_flags_skips_zero_mask_entries =
    texts_beq (decode_flags 0x80000 ((0, text "O_RDONLY") ∷ (0x80000, text "O_CLOEXEC") ∷ []))
      (text "O_CLOEXEC" ∷ [])

abbrev is_truncated_at : ℕ → Result DecodeError Bool → Bool
is_truncated_at n (err (memory (truncated_cstr m))) = m == n
is_truncated_at n _ = false

-- The conversion is what `?` does with an error of a read.
abbrev decode_error_wraps_mem_error_via_from : Bool
decode_error_wraps_mem_error_via_from =
    is_truncated_at 16 (map_err memory (err (truncated_cstr 16)))

abbrev suite : List Bool
suite =
    decode_path_reads_cstring_from_self ∷ decode_fd_at_fdcwd ∷ decode_fd_invalid ∷ decode_fd_num
    ∷ decode_flags_picks_set_bits ∷ decode_flags_empty_returns_empty_vec
    ∷ decode_flags_skips_zero_mask_entries ∷ decode_error_wraps_mem_error_via_from ∷ []

suite_passes : all (λ t. t) suite ≡ true
unfolding on_path_at shown_fd decode_flags set_names
suite_passes = refl
