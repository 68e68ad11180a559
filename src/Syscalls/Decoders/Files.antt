-- ===== src/Syscalls/Decoders/Files.antt =====
-- crates/loi-syscalls/src/decoders/: openat.rs, read.rs, write.rs and close.rs.
use Prim.Native.Nat.{bit_and}
use loi.Prelude.{
  ℕ, ◌%◌, ◌^◌, min, ◌&&◌, Option, none, some, List, [], ◌∷◌, ◌++◌, Bool, ltb, ◌==◌, if◌then◌else◌,
}
use loi.Prelude.Int.{ℤ, pos, negsuc, as_i32}
use loi.Prelude.Result.{Result, ok, ◌>>=◌, map_err}
use loi.Prelude.Text.{Text, text}
use loi.Memory.{read_bytes}
use loi.Syscalls.Libc.{Libc}
use loi.Syscalls.Decoder.{
  DecodeCtx, DecodeError, memory, FdRepr, path, fd, flags, mode, uint, bytes, DecodedCall, file,
  Decoder, Host, decode_path, decode_fd, c_int_to_u64, FlagTable,
}

abbrev pub o_accmode : ℕ
o_accmode = 3

unfoldable pub o_tmpfile_mask : Libc → ℕ
o_tmpfile_mask l = c_int_to_u64 l.o_tmpfile

unfoldable pub o_directory_mask : Libc → ℕ
o_directory_mask l = c_int_to_u64 l.o_directory

unfoldable pub open_flags_table : Libc → FlagTable
open_flags_table l =
    (c_int_to_u64 l.o_creat, text "O_CREAT")
    ∷ (c_int_to_u64 l.o_excl, text "O_EXCL")
    ∷ (c_int_to_u64 l.o_noctty, text "O_NOCTTY")
    ∷ (c_int_to_u64 l.o_trunc, text "O_TRUNC")
    ∷ (c_int_to_u64 l.o_append, text "O_APPEND")
    ∷ (c_int_to_u64 l.o_nonblock, text "O_NONBLOCK")
    ∷ (c_int_to_u64 l.o_dsync, text "O_DSYNC")
    ∷ (c_int_to_u64 l.o_direct, text "O_DIRECT")
    ∷ (c_int_to_u64 l.o_nofollow, text "O_NOFOLLOW")
    ∷ (c_int_to_u64 l.o_noatime, text "O_NOATIME")
    ∷ (c_int_to_u64 l.o_cloexec, text "O_CLOEXEC")
    ∷ (c_int_to_u64 l.o_path, text "O_PATH")
    ∷ (o_tmpfile_mask l, text "O_TMPFILE")
    ∷ (o_directory_mask l, text "O_DIRECTORY")
    ∷ []

unfoldable pub access_mode_name : ℕ → Option Text
access_mode_name raw =
    let m = bit_and raw o_accmode in
    if m == 0
    then some (text "O_RDONLY")
    else if m == 1
    then some (text "O_WRONLY")
    else if m == 2
    then some (text "O_RDWR")
    else none

-- `flags & O_TMPFILE_MASK == O_TMPFILE_MASK`
abbrev pub tmpfile_set : Libc → ℕ → Bool
tmpfile_set l raw = bit_and raw (o_tmpfile_mask l) == o_tmpfile_mask l

-- The loop over the table, with its two `continue`s.
unfoldable pub push_open_flags : Libc → ℕ → FlagTable → List Text
push_open_flags l raw [] = []
push_open_flags l raw ((mask, name) ∷ table) =
    let rest = push_open_flags l raw table in
    if mask == 0
    then rest
    else if mask == o_directory_mask l && tmpfile_set l raw
    then rest
    else if bit_and raw mask == mask
    then name ∷ rest
    else rest

abbrev pub opt_list : Option Text → List Text
opt_list none = []
opt_list (some s) = s ∷ []

unfoldable pub decode_open_flags : Libc → ℕ → List Text
decode_open_flags l raw =
    opt_list (access_mode_name raw) ++ push_open_flags l raw (open_flags_table l)

-- `x as u32` of a u64.
abbrev pub as_u32 : ℕ → ℕ
as_u32 x = x % 2 ^ 32

unfoldable pub openat_decode : Host → DecodeCtx → Result DecodeError DecodedCall
openat_decode h ctx = do
  let dirfd = as_i32 ctx.arg0
  pathname ← decode_path h ctx.pid ctx.arg1
  dir ← decode_fd h.profile dirfd
  ok (record {
    args =
        (text "dirfd", fd dir)
        ∷ (text "pathname", path pathname)
        ∷ (text "flags", flags (decode_open_flags h.libc ctx.arg2))
        ∷ (text "mode", mode (as_u32 ctx.arg3))
        ∷ [];
    ret = ctx.ret;
  })

abbrev pub max_inline_bytes : ℕ
max_inline_bytes = 64

-- What `read` and `write` return of their buffer; `count` fits usize.
unfoldable pub buffer_call : DecodeCtx → FdRepr → List ℕ → DecodedCall
buffer_call ctx number inline = record {
  args =
      (text "fd", fd number)
      ∷ (text "buf", bytes inline ctx.arg2)
      ∷ (text "count", uint ctx.arg2)
      ∷ [];
  ret = ctx.ret;
}

-- `if ctx.ret > 0 { read_bytes(…)? } else { Vec::new() }` by the sign of the result.
unfoldable pub read_inline : Host → DecodeCtx → ℤ → Result DecodeError (List ℕ)
read_inline h ctx (negsuc n) = ok []
read_inline h ctx (pos n) =
    if ltb 0 n
    then map_err memory (read_bytes h.readv ctx.pid ctx.arg1 (min n max_inline_bytes))
    else ok []

unfoldable pub read_decode : Host → DecodeCtx → Result DecodeError DecodedCall
unfolding read_inline buffer_call
read_decode h ctx = do
  inline ← read_inline h ctx ctx.ret
  number ← decode_fd h.profile (as_i32 ctx.arg0)
  ok (buffer_call ctx number inline)

-- The length that `write` asks for: of a positive result, no more than it.
abbrev pub write_want : ℤ → ℕ → ℕ
write_want (negsuc n) total = min total max_inline_bytes
write_want (pos n) total = min (if ltb 0 n then min n total else total) max_inline_bytes

-- `if want == 0 { Vec::new() } else { read_bytes(…)? }`
unfoldable pub write_inline : Host → DecodeCtx → ℕ → Result DecodeError (List ℕ)
write_inline h ctx want =
    if want == 0 then ok [] else map_err memory (read_bytes h.readv ctx.pid ctx.arg1 want)

unfoldable pub write_decode : Host → DecodeCtx → Result DecodeError DecodedCall
unfolding buffer_call write_inline
write_decode h ctx = do
  inline ← write_inline h ctx (write_want ctx.ret ctx.arg2)
  number ← decode_fd h.profile (as_i32 ctx.arg0)
  ok (buffer_call ctx number inline)

unfoldable pub close_decode : Host → DecodeCtx → Result DecodeError DecodedCall
close_decode h ctx = do
  number ← decode_fd h.profile (as_i32 ctx.arg0)
  ok (record { args = (text "fd", fd number) ∷ []; ret = ctx.ret })

abbrev pub open_at : Decoder
open_at = record { decode = openat_decode; category = file }

abbrev pub read : Decoder
read = record { decode = read_decode; category = file }

abbrev pub write : Decoder
write = record { decode = write_decode; category = file }

abbrev pub close : Decoder
close = record { decode = close_decode; category = file }
