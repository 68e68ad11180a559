-- ===== src/Syscalls/Decoders/Processes.antt =====
-- crates/loi-syscalls/src/decoders/: clone.rs and wait4.rs.
use loi.Prelude.{ℕ, ◌&&◌, not, Option, none, some, List, [], ◌∷◌, length, ◌==◌, if◌then◌else◌}
use loi.Prelude.Int.{ℤ, as_i64, is_pos}
use loi.Prelude.Result.{Result, ok, err, panic, ◌>>=◌}
use loi.Prelude.Word.{from_le_bytes}
use loi.Prelude.Text.{Text, text}
use loi.Memory.{read_bytes, MemError}
use loi.Syscalls.Libc.{Libc}
use loi.Syscalls.Decoder.{
  DecodeCtx, DecodeError, DecodedArg, flags, int, hex, ptr, DecodedCall, process, Decoder, Host,
  c_int_to_u64, FlagTable, decode_flags,
}

unfoldable pub clone_table : Libc → FlagTable
clone_table l =
    (c_int_to_u64 l.clone_vm, text "CLONE_VM")
    ∷ (c_int_to_u64 l.clone_fs, text "CLONE_FS")
    ∷ (c_int_to_u64 l.clone_files, text "CLONE_FILES")
    ∷ (c_int_to_u64 l.clone_sighand, text "CLONE_SIGHAND")
    ∷ (c_int_to_u64 l.clone_pidfd, text "CLONE_PIDFD")
    ∷ (c_int_to_u64 l.clone_ptrace, text "CLONE_PTRACE")
    ∷ (c_int_to_u64 l.clone_vfork, text "CLONE_VFORK")
    ∷ (c_int_to_u64 l.clone_parent, text "CLONE_PARENT")
    ∷ (c_int_to_u64 l.clone_thread, text "CLONE_THREAD")
    ∷ (c_int_to_u64 l.clone_newns, text "CLONE_NEWNS")
    ∷ (c_int_to_u64 l.clone_sysvsem, text "CLONE_SYSVSEM")
    ∷ (c_int_to_u64 l.clone_settls, text "CLONE_SETTLS")
    ∷ (c_int_to_u64 l.clone_parent_settid, text "CLONE_PARENT_SETTID")
    ∷ (c_int_to_u64 l.clone_child_cleartid, text "CLONE_CHILD_CLEARTID")
    ∷ (c_int_to_u64 l.clone_detached, text "CLONE_DETACHED")
    ∷ (c_int_to_u64 l.clone_untraced, text "CLONE_UNTRACED")
    ∷ (c_int_to_u64 l.clone_child_settid, text "CLONE_CHILD_SETTID")
    ∷ (c_int_to_u64 l.clone_newcgroup, text "CLONE_NEWCGROUP")
    ∷ (c_int_to_u64 l.clone_newuts, text "CLONE_NEWUTS")
    ∷ (c_int_to_u64 l.clone_newipc, text "CLONE_NEWIPC")
    ∷ (c_int_to_u64 l.clone_newuser, text "CLONE_NEWUSER")
    ∷ (c_int_to_u64 l.clone_newpid, text "CLONE_NEWPID")
    ∷ (c_int_to_u64 l.clone_newnet, text "CLONE_NEWNET")
    ∷ (c_int_to_u64 l.clone_io, text "CLONE_IO")
    ∷ []

-- The two definitions of `PTR_LABELS`, under `cfg(target_arch = "aarch64")` and under its negation.
pub data Arch : Type 0 where
  aarch64 x86_64 : Arch

abbrev pub ptr_labels : Arch → Text × Text × Text
ptr_labels aarch64 = (text "parent_tid", text "tls", text "child_tid")
ptr_labels x86_64 = (text "parent_tid", text "child_tid", text "tls")

unfoldable pub clone_decode : Arch → Host → DecodeCtx → Result DecodeError DecodedCall
clone_decode arch h ctx =
    let (label0, label1, label2) = ptr_labels arch in
    ok (record {
      args =
          (text "flags", flags (decode_flags ctx.arg0 (clone_table h.libc)))
          ∷ (text "stack", ptr ctx.arg1)
          ∷ (label0, ptr ctx.arg2)
          ∷ (label1, ptr ctx.arg3)
          ∷ (label2, ptr ctx.arg4)
          ∷ [];
      ret = ctx.ret;
    })

unfoldable pub options_table : Libc → FlagTable
options_table l =
    (c_int_to_u64 l.wnohang, text "WNOHANG")
    ∷ (c_int_to_u64 l.wuntraced, text "WUNTRACED")
    ∷ (c_int_to_u64 l.wcontinued, text "WCONTINUED")
    ∷ []

abbrev pub status_word_bytes : ℕ
status_word_bytes = 4

-- `.ok()?`, the conversion to an array of four bytes, and `Some(u32::from_ne_bytes(arr))`.
on_status_bytes : Result MemError (List ℕ) → Result DecodeError (Option ℕ)
on_status_bytes (ok bs) =
    ok (if length bs == status_word_bytes then some (from_le_bytes bs) else none)
on_status_bytes (err e) = ok none
on_status_bytes panic = panic

unfoldable pub read_status_word : Host → ℤ → ℕ → Result DecodeError (Option ℕ)
unfolding on_status_bytes
read_status_word h pid addr = on_status_bytes (read_bytes h.readv pid addr status_word_bytes)

status_arg : ℕ → Option ℕ → DecodedArg
status_arg addr (some word) = hex word
status_arg addr none = ptr addr

unfoldable pub wait4_decode : Host → DecodeCtx → Result DecodeError DecodedCall
unfolding status_arg
wait4_decode h ctx = do
  wstatus ←
      (if is_pos ctx.ret && not (ctx.arg1 == 0)
        then read_status_word h ctx.pid ctx.arg1 >>= (λ w. ok (status_arg ctx.arg1 w))
        else ok (ptr ctx.arg1))
  ok (record {
    args =
        (text "pid", int (as_i64 ctx.arg0))
        ∷ (text "wstatus", wstatus)
        ∷ (text "options", flags (decode_flags ctx.arg2 (options_table h.libc)))
        ∷ (text "rusage", ptr ctx.arg3)
        ∷ [];
    ret = ctx.ret;
  })

abbrev pub clone : Arch → Decoder
clone arch = record { decode = clone_decode arch; category = process }

abbrev pub wait4 : Decoder
wait4 = record { decode = wait4_decode; category = process }
