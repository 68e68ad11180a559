-- ===== src/Syscalls/Decoders/Infallible.antt =====
-- The decoders (crates/loi-syscalls/src/decoders) that cannot fail.
use loi.Prelude.{◌≡◌, refl, [], ◌∷◌, All}
use loi.Prelude.Result.{ok}
use loi.Prelude.Text.{text}
use loi.Syscalls.Decoder.{
  fd, ptr, hex, uint, flags, decode_flags, decode_prot, Host, DecodeCtx, DecodedCall, Decoder,
}
use loi.Syscalls.Decoder.Fds.{fd_of_register, decode_fd-as_i32}
use loi.Syscalls.Decoders.Files
use loi.Syscalls.Decoders.Stat
use loi.Syscalls.Decoders.Maps
use loi.Syscalls.Decoders.Processes
use loi.Syscalls.Decoders.Processes.{Arch}
use loi.Syscalls.Decoders.Waits.{wait4_total}

-- Every call is decoded, with its result.
abbrev pub IsInfallible : Decoder → Type 0
IsInfallible d =
    (h : Host) (ctx : DecodeCtx)
    → (call : DecodedCall) × (d.decode h ctx ≡ ok call) × (call.ret ≡ ctx.ret)

close-IsInfallible : IsInfallible Files.close
unfolding Files.close_decode
close-IsInfallible h ctx = (
  record { args = (text "fd", fd (fd_of_register ctx.arg0)) ∷ []; ret = ctx.ret },
  rw (decode_fd-as_i32 h.profile ctx.arg0) refl,
  refl,
)

fstat-IsInfallible : IsInfallible Stat.fstat
unfolding Stat.fstat_decode
fstat-IsInfallible h ctx = (
  record {
    args = (text "fd", fd (fd_of_register ctx.arg0)) ∷ (text "statbuf", ptr ctx.arg1) ∷ [];
    ret = ctx.ret;
  },
  rw (decode_fd-as_i32 h.profile ctx.arg0) refl,
  refl,
)

mmap-IsInfallible : IsInfallible Maps.mmap
unfolding Maps.mmap_decode
mmap-IsInfallible h ctx = (
  record {
    args =
        (text "addr", hex ctx.arg0)
        ∷ (text "length", uint ctx.arg1)
        ∷ (text "prot", flags (decode_prot h.libc ctx.arg2))
        ∷ (text "flags", flags (decode_flags ctx.arg3 (Maps.map_table h.libc)))
        ∷ (text "fd", fd (fd_of_register ctx.arg4))
        ∷ (text "offset", hex ctx.arg5)
        ∷ [];
    ret = ctx.ret;
  },
  rw (decode_fd-as_i32 h.profile ctx.arg4) refl,
  refl,
)

mprotect-IsInfallible : IsInfallible Maps.mprotect
unfolding Maps.mprotect_decode
mprotect-IsInfallible h ctx = (_, refl, refl)

clone-IsInfallible : (arch : Arch) → IsInfallible (Processes.clone arch)
unfolding Processes.clone_decode
clone-IsInfallible arch h ctx = (_, refl, refl)

wait4-IsInfallible : IsInfallible Processes.wait4
wait4-IsInfallible h ctx = (_, wait4_total h ctx, refl)

-- The calls that take neither a path nor a buffer are always decoded, with the result that they
-- had, on either architecture, in either build and whatever the memory of the process holds.
pub six-IsInfallible :
    (arch : Arch)
    → All IsInfallible (
        Files.close
        ∷ Stat.fstat
        ∷ Maps.mmap
        ∷ Maps.mprotect
        ∷ Processes.clone arch
        ∷ Processes.wait4
        ∷ [])
six-IsInfallible arch = (
  close-IsInfallible,
  (
    fstat-IsInfallible,
    (
      mmap-IsInfallible,
      (mprotect-IsInfallible, (clone-IsInfallible arch, (wait4-IsInfallible, tt))),
    ),
  ),
)
