-- ===== src/UnitTests/Decoders.antt =====
-- The memory and the assertions of the unit tests of crates/loi-syscalls/src/decoders/. Where a test
-- takes the address of a buffer of its own process, here the buffer ends a page.
mod Openat
mod Read
mod Write
mod Close
mod Stat
mod Mmap
mod Mprotect
mod Clone
mod Wait4
mod Execve
use loi.Prelude.{
  ℕ, zero, suc, ◌*◌, ◌/◌, ◌-◌, ◌+◌, ◌^◌, ◌&&◌, Bool, true, false, Option, none, some, List, map, [],
  ◌∷◌, ◌++◌, length, ◌==◌,
}
use loi.Prelude.Int.{ℤ, pos, eq_ℤ, bits_of}
use loi.Prelude.Result.{Result, ok, err, panic}
use loi.Prelude.Text.{Text, text, text_beq}
use loi.Prelude.Word.{dev}
use loi.Core.Regs.{Args}
use loi.Memory.{read_bytes, read_cstr, scan, chunk_size}
use loi.Memory.Pages.{Memory}
use loi.Syscalls.Utf8.{from_utf8_lossy, is_utf8, decode_utf8, lossy_from, valid_from, start}
use loi.Syscalls.Decoder.{
  DecodeCtx, DecodeError, memory, FdRepr, at_fdcwd, invalid, num, DecodedArg, path, fd, flags, mode,
  int, uint, bytes, hex, ptr, argv, DecodedCall, Host, Decoder, decode_path, decode_fd,
  decode_flags, decode_prot, prot_table, set_names, c_int_to_u64,
}
use loi.Syscalls.Decoders.Files.{
  o_tmpfile_mask, o_directory_mask, open_flags_table, access_mode_name, push_open_flags,
  decode_open_flags, openat_decode, buffer_call, read_inline, read_decode, write_inline,
  write_decode, close_decode,
}
use loi.Syscalls.Decoders.Stat.{
  statx_flags_table, statx_mask_table, stat_decode, fstat_decode, statx_decode,
}
use loi.Syscalls.Decoders.Maps.{map_table, mmap_decode, mprotect_decode}
use loi.Syscalls.Decoders.Processes.{
  clone_table, clone_decode, options_table, read_status_word, wait4_decode,
}
use loi.Syscalls.Decoders.Execve.{decode_argv_entry, read_ptr_slot, walk, walk_argv, execve_decode}
use loi.Scenarios.Host.{linux_x86_64}
use loi.Scenarios.Reading.{serve}
use loi.UnitTests.Support.{texts_beq}

-- Bytes that end the page with this number.
abbrev pub Buffer : Type 0
Buffer = ℕ × List ℕ

abbrev pub address_of : Buffer → ℕ
address_of (page, bs) = page * 4096 + (4096 - length bs)

abbrev byte_at : List ℕ → ℕ → ℕ
byte_at [] i = 0
byte_at (b ∷ bs) zero = b
byte_at (b ∷ bs) (suc i) = byte_at bs i

-- The pages of these buffers are mapped, and no others.
abbrev pub holding : List Buffer → Memory
holding [] a = none
holding (b ∷ bs) a = elim (a / 4096 == b.0) [
  | true ↦ some (byte_at b.1 (a - address_of b))
  | false ↦ holding bs a
]

-- `CString::new`, of a text with no zero byte.
abbrev pub c_string : Text → List ℕ
c_string s = s ++ 0 ∷ []

abbrev pub self_pid : ℤ
self_pid = pos 4321

-- A register that holds a negative number.
abbrev pub unsigned : ℤ → ℕ
unsigned = bits_of (2 ^ 64)

abbrev pub ctx_of : ℕ → ℕ → ℕ → ℕ → ℕ → ℕ → ℤ → DecodeCtx
ctx_of a b c d e f r = record {
  pid = self_pid;
  args = record { arg0 = a; arg1 = b; arg2 = c; arg3 = d; arg4 = e; arg5 = f };
  ret = r;
}

unfoldable pub decode_with : Decoder → List Buffer → DecodeCtx → Result DecodeError DecodedCall
unfolding read_bytes read_cstr scan chunk_size from_utf8_lossy is_utf8 decode_utf8 lossy_from
    valid_from start decode_path decode_fd decode_flags decode_prot prot_table set_names
    c_int_to_u64 o_tmpfile_mask o_directory_mask open_flags_table access_mode_name push_open_flags
    decode_open_flags openat_decode buffer_call read_inline read_decode write_inline write_decode
    close_decode statx_flags_table statx_mask_table stat_decode fstat_decode statx_decode map_table
    mmap_decode mprotect_decode clone_table clone_decode options_table read_status_word wait4_decode
    decode_argv_entry read_ptr_slot walk walk_argv execve_decode
decode_with d buffers ctx =
    d.decode (record { profile = dev; readv = serve (holding buffers); libc = linux_x86_64 }) ctx

-- An assertion on the call, which fails where decoding does.
abbrev pub on_call : Result DecodeError DecodedCall → (DecodedCall → Bool) → Bool
on_call (ok call) p = p call
on_call (err e) p = false
on_call panic p = false

abbrev pub is_memory_error : Result DecodeError DecodedCall → Bool
is_memory_error (err (memory e)) = true
is_memory_error _ = false

abbrev pub labels : DecodedCall → List Text
labels call = map (λ (labelled : Text × DecodedArg). labelled.0) call.args

abbrev pub same_fd : FdRepr → FdRepr → Bool
same_fd at_fdcwd at_fdcwd = true
same_fd invalid invalid = true
same_fd (num m) (num n) = m == n
same_fd _ _ = false

abbrev pub same_arg : DecodedArg → DecodedArg → Bool
same_arg (path s) (path t) = text_beq s t
same_arg (fd f) (fd g) = same_fd f g
same_arg (flags ss) (flags ts) = texts_beq ss ts
same_arg (mode m) (mode n) = m == n
same_arg (int i) (int j) = eq_ℤ i j
same_arg (uint m) (uint n) = m == n
same_arg (bytes s m) (bytes t n) = text_beq s t && m == n
same_arg (hex m) (hex n) = m == n
same_arg (ptr m) (ptr n) = m == n
same_arg (argv ss) (argv ts) = texts_beq ss ts
same_arg _ _ = false

-- An assertion on `call.args[i].1`, which fails where there is none.
abbrev on_arg : List (Text × DecodedArg) → ℕ → (DecodedArg → Bool) → Bool
on_arg [] i p = false
on_arg ((label, a) ∷ rest) zero p = p a
on_arg ((label, a) ∷ rest) (suc i) p = on_arg rest i p

abbrev pub arg_is : ℕ → DecodedArg → DecodedCall → Bool
arg_is i a call = on_arg call.args i (same_arg a)

abbrev names_of : (List Text → Bool) → DecodedArg → Bool
names_of p (flags names) = p names
names_of p _ = false

-- An assertion on the names in `call.args[i].1`.
abbrev pub on_names : ℕ → (List Text → Bool) → DecodedCall → Bool
on_names i p call = on_arg call.args i (names_of p)

abbrev content_of : (List ℕ → ℕ → Bool) → DecodedArg → Bool
content_of p (bytes inline total) = p inline total
content_of p _ = false

-- `bytes_arg`, with the assertion on its two parts.
abbrev pub bytes_arg : (List ℕ → ℕ → Bool) → DecodedCall → Bool
bytes_arg p call = on_arg call.args 1 (content_of p)

abbrev entries_of : (List Text → Bool) → DecodedArg → Bool
entries_of p (argv entries) = p entries
entries_of p _ = false

-- `argv_arg`, with the assertion on the entries.
abbrev pub argv_arg : (List Text → Bool) → DecodedCall → Bool
argv_arg p call = on_arg call.args 1 (entries_of p)

abbrev pub returns : ℤ → DecodedCall → Bool
returns r call = eq_ℤ call.ret r

-- `(m..m + n)`
abbrev pub counted : ℕ → ℕ → List ℕ
counted m zero = []
counted m (suc n) = m ∷ counted (suc m) n
