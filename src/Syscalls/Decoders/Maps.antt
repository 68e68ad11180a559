-- ===== src/Syscalls/Decoders/Maps.antt =====
-- crates/loi-syscalls/src/decoders/: mmap.rs and mprotect.rs.
use loi.Prelude.{[], ◌∷◌}
use loi.Prelude.Int.{as_i32}
use loi.Prelude.Result.{Result, ok, ◌>>=◌}
use loi.Prelude.Text.{text}
use loi.Syscalls.Libc.{Libc}
use loi.Syscalls.Decoder.{
  DecodeCtx, DecodeError, fd, flags, uint, hex, DecodedCall, memory_map, Decoder, Host, decode_fd,
  c_int_to_u64, FlagTable, decode_flags, decode_prot,
}

unfoldable pub map_table : Libc → FlagTable
map_table l =
    (c_int_to_u64 l.map_shared, text "MAP_SHARED")
    ∷ (c_int_to_u64 l.map_private, text "MAP_PRIVATE")
    ∷ (c_int_to_u64 l.map_fixed, text "MAP_FIXED")
    ∷ (c_int_to_u64 l.map_anonymous, text "MAP_ANONYMOUS")
    ∷ (c_int_to_u64 l.map_noreserve, text "MAP_NORESERVE")
    ∷ (c_int_to_u64 l.map_stack, text "MAP_STACK")
    ∷ (c_int_to_u64 l.map_populate, text "MAP_POPULATE")
    ∷ (c_int_to_u64 l.map_denywrite, text "MAP_DENYWRITE")
    ∷ (c_int_to_u64 l.map_hugetlb, text "MAP_HUGETLB")
    ∷ []

unfoldable pub mmap_decode : Host → DecodeCtx → Result DecodeError DecodedCall
mmap_decode h ctx = do
  number ← decode_fd h.profile (as_i32 ctx.arg4)
  ok (record {
    args =
        (text "addr", hex ctx.arg0)
        ∷ (text "length", uint ctx.arg1)
        ∷ (text "prot", flags (decode_prot h.libc ctx.arg2))
        ∷ (text "flags", flags (decode_flags ctx.arg3 (map_table h.libc)))
        ∷ (text "fd", fd number)
        ∷ (text "offset", hex ctx.arg5)
        ∷ [];
    ret = ctx.ret;
  })

unfoldable pub mprotect_decode : Host → DecodeCtx → Result DecodeError DecodedCall
mprotect_decode h ctx = ok (record {
  args =
      (text "addr", hex ctx.arg0)
      ∷ (text "len", uint ctx.arg1)
      ∷ (text "prot", flags (decode_prot h.libc ctx.arg2))
      ∷ [];
  ret = ctx.ret;
})

abbrev pub mmap : Decoder
mmap = record { decode = mmap_decode; category = memory_map }

abbrev pub mprotect : Decoder
mprotect = record { decode = mprotect_decode; category = memory_map }
