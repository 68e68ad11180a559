-- ===== src/Syscalls/Decoders/Stat.antt =====
-- crates/loi-syscalls/src/decoders/stat.rs: stat, fstat and statx.
use loi.Prelude.{[], ◌∷◌}
use loi.Prelude.Int.{as_i32}
use loi.Prelude.Result.{Result, ok, ◌>>=◌}
use loi.Prelude.Text.{text}
use loi.Syscalls.Libc.{Libc}
use loi.Syscalls.Decoder.{
  DecodeCtx, DecodeError, path, fd, flags, ptr, DecodedCall, file_meta, Decoder, Host, decode_path,
  decode_fd, c_int_to_u64, FlagTable, decode_flags,
}

unfoldable pub statx_flags_table : Libc → FlagTable
statx_flags_table l =
    (c_int_to_u64 l.at_empty_path, text "AT_EMPTY_PATH")
    ∷ (c_int_to_u64 l.at_no_automount, text "AT_NO_AUTOMOUNT")
    ∷ (c_int_to_u64 l.at_symlink_nofollow, text "AT_SYMLINK_NOFOLLOW")
    ∷ (c_int_to_u64 l.at_statx_sync_as_stat, text "AT_STATX_SYNC_AS_STAT")
    ∷ (c_int_to_u64 l.at_statx_force_sync, text "AT_STATX_FORCE_SYNC")
    ∷ (c_int_to_u64 l.at_statx_dont_sync, text "AT_STATX_DONT_SYNC")
    ∷ []

unfoldable pub statx_mask_table : Libc → FlagTable
statx_mask_table l =
    (l.statx_type, text "STATX_TYPE")
    ∷ (l.statx_mode, text "STATX_MODE")
    ∷ (l.statx_nlink, text "STATX_NLINK")
    ∷ (l.statx_uid, text "STATX_UID")
    ∷ (l.statx_gid, text "STATX_GID")
    ∷ (l.statx_atime, text "STATX_ATIME")
    ∷ (l.statx_mtime, text "STATX_MTIME")
    ∷ (l.statx_ctime, text "STATX_CTIME")
    ∷ (l.statx_ino, text "STATX_INO")
    ∷ (l.statx_size, text "STATX_SIZE")
    ∷ (l.statx_blocks, text "STATX_BLOCKS")
    ∷ (l.statx_basic_stats, text "STATX_BASIC_STATS")
    ∷ (l.statx_btime, text "STATX_BTIME")
    ∷ (l.statx_all, text "STATX_ALL")
    ∷ []

unfoldable pub stat_decode : Host → DecodeCtx → Result DecodeError DecodedCall
stat_decode h ctx = do
  pathname ← decode_path h ctx.pid ctx.arg0
  ok (record {
    args = (text "pathname", path pathname) ∷ (text "statbuf", ptr ctx.arg1) ∷ [];
    ret = ctx.ret;
  })

unfoldable pub fstat_decode : Host → DecodeCtx → Result DecodeError DecodedCall
fstat_decode h ctx = do
  number ← decode_fd h.profile (as_i32 ctx.arg0)
  ok (record { args = (text "fd", fd number) ∷ (text "statbuf", ptr ctx.arg1) ∷ []; ret = ctx.ret })

unfoldable pub statx_decode : Host → DecodeCtx → Result DecodeError DecodedCall
statx_decode h ctx = do
  let dirfd = as_i32 ctx.arg0
  pathname ← decode_path h ctx.pid ctx.arg1
  dir ← decode_fd h.profile dirfd
  ok (record {
    args =
        (text "dirfd", fd dir)
        ∷ (text "pathname", path pathname)
        ∷ (text "flags", flags (decode_flags ctx.arg2 (statx_flags_table h.libc)))
        ∷ (text "mask", flags (decode_flags ctx.arg3 (statx_mask_table h.libc)))
        ∷ (text "statbuf", ptr ctx.arg4)
        ∷ [];
    ret = ctx.ret;
  })

abbrev pub stat : Decoder
stat = record { decode = stat_decode; category = file_meta }

abbrev pub fstat : Decoder
fstat = record { decode = fstat_decode; category = file_meta }

abbrev pub statx : Decoder
statx = record { decode = statx_decode; category = file_meta }
