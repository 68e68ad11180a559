-- ===== src/Syscalls/Decoders/Execve.antt =====
-- crates/loi-syscalls/src/decoders/execve.rs.
use loi.Prelude.{
  ℕ, zero, suc, ◌+◌, ◌-◌, ◌^◌, min, List, [], ◌∷◌, ◌++◌, length, is_empty, true, false, ◌==◌,
  if◌then◌else◌,
}
use loi.Prelude.Int.{ℤ}
use loi.Prelude.Result.{Result, ok, err, panic, ◌>>=◌, map_err}
use loi.Prelude.Text.{Text, text}
use loi.Memory.{read_bytes, read_cstr}
use loi.Syscalls.Utf8.{decode_utf8}
use loi.Syscalls.Decoder.{
  DecodeCtx, DecodeError, memory, path, ptr, argv, DecodedCall, process, Decoder, Host, decode_path,
}
use loi.Prelude.Word.{from_le_bytes}

abbrev pub max_argv : ℕ
max_argv = 64

abbrev pub max_argv_entry_bytes : ℕ
max_argv_entry_bytes = 256

abbrev pub ptr_bytes : ℕ
ptr_bytes = 8

abbrev pub sentinel_overflow : Text
sentinel_overflow = text "..."

abbrev pub sentinel_unreadable : Text
sentinel_unreadable = text "<unreadable>"

module _ (h : Host) (pid : ℤ) where
  unfoldable pub decode_argv_entry : ℕ → Result DecodeError Text
  decode_argv_entry addr = do
    bs ← map_err memory (read_cstr h.profile h.readv pid addr max_argv_entry_bytes)
    ok (decode_utf8 bs)

  -- The conversion to an array panics on any other length.
  unfoldable pub read_ptr_slot : ℕ → Result DecodeError ℕ
  read_ptr_slot addr = do
    bs ← map_err memory (read_bytes h.readv pid addr ptr_bytes)
    if length bs == ptr_bytes then ok (from_le_bytes bs) else panic

  -- The rounds left of the loop of `walk_argv`. With none left it has overflowed.
  unfoldable pub walk : ℕ → ℕ → List Text → Result DecodeError (List Text)
  walk zero cursor entries = ok (entries ++ sentinel_overflow ∷ [])
  walk (suc rounds) cursor entries = elim (read_ptr_slot cursor) [
    | err e ↦ if is_empty entries then err e else ok (entries ++ sentinel_unreadable ∷ [])
    | panic ↦ panic
    | ok p ↦ elim (p == 0) [
      | true ↦ ok entries
      | false ↦ elim (decode_argv_entry p) [
        | ok s ↦ walk rounds (min (cursor + ptr_bytes) (2 ^ 64 - 1)) (entries ++ s ∷ [])
        | err e ↦ ok (entries ++ sentinel_unreadable ∷ [])
        | panic ↦ panic
      ]
    ]
  ]

  unfoldable pub walk_argv : ℕ → Result DecodeError (List Text)
  walk_argv argv_addr = walk max_argv argv_addr []

unfoldable pub execve_decode : Host → DecodeCtx → Result DecodeError DecodedCall
execve_decode h ctx = do
  pathname ← decode_path h ctx.pid ctx.arg0
  entries ← walk_argv h ctx.pid ctx.arg1
  ok (record {
    args =
        (text "pathname", path pathname)
        ∷ (text "argv", argv entries)
        ∷ (text "envp", ptr ctx.arg2)
        ∷ [];
    ret = ctx.ret;
  })

abbrev pub execve : Decoder
execve = record { decode = execve_decode; category = process }
