-- ===== src/Syscalls/Decoders/Signatures/Conforms.antt =====
-- The decoders of crates/loi-syscalls/src/decoders against the signatures of their calls.
use loi.Prelude.{
  ◌∙◌, ℕ, zero, suc, ◌+◌, ◌≤◌, ◌≡◌, ◌==◌, refl, sym, inl, inr, List, [], ◌∷◌, ◌++◌, length,
  length-append, is_empty, not, ◌&&◌, arith,
}
use loi.Prelude.Tests.{Bool-cases}
use loi.Prelude.Int.{ℤ, as_i32, is_pos}
use loi.Prelude.Result.{Result, ok, err, panic, >>=-eq-ok, ok_injective, Result-cases}
use loi.Prelude.Text.{Text, text}
use loi.Syscalls.Decoder.{DecodeCtx, Host, decode_path, decode_fd, hex, ptr}
use loi.Syscalls.Decoders.Files
use loi.Syscalls.Decoders.Files.{read_decode, write_decode, buffer_call, open_flags_table}
use loi.Syscalls.Decoders.Stat
use loi.Syscalls.Decoders.Maps
use loi.Syscalls.Decoders.Processes
use loi.Syscalls.Decoders.Processes.{Arch, x86_64, aarch64}
use loi.Syscalls.Decoders.Execve
use loi.Syscalls.Decoders.Execve.{
  walk, walk_argv, read_ptr_slot, decode_argv_entry, sentinel_unreadable,
}
use loi.Syscalls.Decoders.Reads.{read_captures, write_captures}
use loi.Memory.{MemError, read_bytes}
use loi.Prelude.Word.{from_le_bytes}
use loi.Syscalls.Decoders.Waits.{wait4_total, status_shown}
use loi.Syscalls.Decoders.Signatures.{
  Fits, status_word, Conforms, of_openat, of_read_write, of_close, of_stat, of_fstat, of_statx,
  of_mmap, of_mprotect, of_execve, of_clone, of_wait4,
}
use loi.Syscalls.Decoders.Signatures.Chosen.{
  decode_flags-Picks, decode_prot-Picks, decode_open_flags-Picks,
}

pub openat-Conforms : Conforms Files.open_at of_openat
unfolding Files.openat_decode
openat-Conforms h ctx call done =
    let (pathname, _, rest) = >>=-eq-ok (decode_path h ctx.pid ctx.arg1) _ done in
    let (dir, _, built) = >>=-eq-ok (decode_fd h.profile (as_i32 ctx.arg0)) _ rest in
    let chosen = decode_open_flags-Picks h.libc ctx.arg2 in
    rw (sym (ok_injective built))
      ((refl, tt, (refl, tt, (refl, chosen, (refl, (omega arith), tt)))), refl)

pub read-Conforms : Conforms Files.read of_read_write
unfolding buffer_call
read-Conforms h ctx call done =
    let (inline, built, (size, stored)) = read_captures h ctx call done in
    rw built ((refl, tt, (refl, (ground arith), (refl, tt, tt))), refl)

pub write-Conforms : Conforms Files.write of_read_write
unfolding buffer_call
write-Conforms h ctx call done =
    let (inline, built, (size, stored)) = write_captures h ctx call done in
    rw built ((refl, tt, (refl, (ground arith), (refl, tt, tt))), refl)

pub close-Conforms : Conforms Files.close of_close
unfolding Files.close_decode
close-Conforms h ctx call done =
    let (number, _, built) = >>=-eq-ok (decode_fd h.profile (as_i32 ctx.arg0)) _ done in
    rw (sym (ok_injective built)) ((refl, tt, tt), refl)

pub stat-Conforms : Conforms Stat.stat of_stat
unfolding Stat.stat_decode
stat-Conforms h ctx call done =
    let (pathname, _, built) = >>=-eq-ok (decode_path h ctx.pid ctx.arg0) _ done in
    rw (sym (ok_injective built)) ((refl, tt, (refl, tt, tt)), refl)

pub fstat-Conforms : Conforms Stat.fstat of_fstat
unfolding Stat.fstat_decode
fstat-Conforms h ctx call done =
    let (number, _, built) = >>=-eq-ok (decode_fd h.profile (as_i32 ctx.arg0)) _ done in
    rw (sym (ok_injective built)) ((refl, tt, (refl, tt, tt)), refl)

pub statx-Conforms : Conforms Stat.statx of_statx
unfolding Stat.statx_decode Stat.statx_flags_table Stat.statx_mask_table
statx-Conforms h ctx call done =
    let (pathname, _, rest) = >>=-eq-ok (decode_path h ctx.pid ctx.arg1) _ done in
    let (dir, _, built) = >>=-eq-ok (decode_fd h.profile (as_i32 ctx.arg0)) _ rest in
    let lookup = decode_flags-Picks ctx.arg2 (Stat.statx_flags_table h.libc) in
    let wanted = decode_flags-Picks ctx.arg3 (Stat.statx_mask_table h.libc) in
    rw (sym (ok_injective built))
      ((refl, tt, (refl, tt, (refl, lookup, (refl, wanted, (refl, tt, tt))))), refl)

pub mmap-Conforms : Conforms Maps.mmap of_mmap
unfolding Maps.mmap_decode Maps.map_table
mmap-Conforms h ctx call done =
    let (number, _, built) = >>=-eq-ok (decode_fd h.profile (as_i32 ctx.arg4)) _ done in
    let prot = decode_prot-Picks h.libc ctx.arg2 in
    let kind = decode_flags-Picks ctx.arg3 (Maps.map_table h.libc) in
    rw (sym (ok_injective built))
      ((refl, tt, (refl, tt, (refl, prot, (refl, kind, (refl, tt, (refl, tt, tt)))))), refl)

pub mprotect-Conforms : Conforms Maps.mprotect of_mprotect
unfolding Maps.mprotect_decode
mprotect-Conforms h ctx call done =
    let prot = decode_prot-Picks h.libc ctx.arg2 in
    rw (sym (ok_injective done)) ((refl, tt, (refl, tt, (refl, prot, tt))), refl)

pub clone-Conforms : (arch : Arch) → Conforms (Processes.clone arch) (of_clone arch)
unfolding Processes.clone_decode Processes.clone_table
clone-Conforms aarch64 h ctx call done =
    let chosen = decode_flags-Picks ctx.arg0 (Processes.clone_table h.libc) in
    rw (sym (ok_injective done))
      ((refl, chosen, (refl, tt, (refl, tt, (refl, tt, (refl, tt, tt))))), refl)
clone-Conforms x86_64 h ctx call done =
    let chosen = decode_flags-Picks ctx.arg0 (Processes.clone_table h.libc) in
    rw (sym (ok_injective done))
      ((refl, chosen, (refl, tt, (refl, tt, (refl, tt, (refl, tt, tt))))), refl)

-- The status is a word, or the address that it was to be read from.
word_or_address :
    (addr : ℕ) (r : Result MemError (List ℕ))
    → Fits (elim r [ ok bs ↦ hex (from_le_bytes bs) | _ ↦ ptr addr ]) status_word
word_or_address addr (ok bs) = tt
word_or_address addr (err e) = tt
word_or_address addr panic = tt

status_shown-Fits : (h : Host) (ctx : DecodeCtx) → Fits (status_shown h ctx) status_word
status_shown-Fits h ctx = elim (Bool-cases (is_pos ctx.ret && not (ctx.arg1 == 0))) [
  | inr unread ↦ rw (unread, status_shown) tt
  | inl tried ↦
      rw (tried, status_shown) (word_or_address ctx.arg1 (read_bytes h.readv ctx.pid ctx.arg1 4))
]

pub wait4-Conforms : Conforms Processes.wait4 of_wait4
unfolding Processes.options_table
wait4-Conforms h ctx call done =
    let chosen = decode_flags-Picks ctx.arg2 (Processes.options_table h.libc) in
    let status = status_shown-Fits h ctx in
    rw (ok_injective (sym done ∙ wait4_total h ctx))
      ((refl, tt, (refl, status, (refl, chosen, (refl, tt, tt)))), refl)

-- Each round adds one entry at most, and the end one more.
length-walk :
    (h : Host) (pid : ℤ) (rounds cursor : ℕ) (entries out : List Text)
    → walk h pid rounds cursor entries ≡ ok out
    → length out ≤ length entries + (rounds + 1)
unfolding walk
length-walk h pid zero cursor entries out done =
    rw (sym (ok_injective done)) (omega (arith, length-append entries (text "..." ∷ [])))
length-walk h pid (suc rounds) cursor entries out done =
    elim (Result-cases (read_ptr_slot h pid cursor)) [
      | inr (inr panics) ↦ (let never = rw (panics, walk) at done in cc)
      | inr (inl (e, failed)) ↦ elim (Bool-cases (is_empty entries)) [
        | inl none_yet ↦ (let never = rw (none_yet, walk) at (rw (failed, walk) at done) in cc)
        | inr some_read ↦
            let ended = rw (some_read, walk) at (rw (failed, walk) at done) in
            rw (sym (ok_injective ended))
              (omega (arith, length-append entries (sentinel_unreadable ∷ [])))
      ]
      | inl (p, slot) ↦ elim (Bool-cases (p == 0)) [
        | inl null ↦
            let ended = rw (null, walk) at (rw (slot, walk) at done) in
            rw (sym (ok_injective ended)) (omega arith)
        | inr more ↦
            let entry = rw (more, walk) at (rw (slot, walk) at done) in
            elim (Result-cases (decode_argv_entry h pid p)) [
              | inr (inr panics) ↦ (let never = rw (panics, walk) at entry in cc)
              | inr (inl (e, failed)) ↦
                  let ended = rw (failed, walk) at entry in
                  rw (sym (ok_injective ended))
                    (omega (arith, length-append entries (sentinel_unreadable ∷ [])))
              | inl (s, read) ↦
                  let went_on = rw (read, walk) at entry in
                  omega (
                    arith,
                    length-append entries (s ∷ []),
                    length-walk h pid rounds _ (entries ++ s ∷ []) out went_on,
                  )
            ]
      ]
    ]

pub execve-Conforms : Conforms Execve.execve of_execve
unfolding Execve.execve_decode walk_argv
execve-Conforms h ctx call done =
    let (pathname, _, rest) = >>=-eq-ok (decode_path h ctx.pid ctx.arg0) _ done in
    let (entries, walked, built) = >>=-eq-ok (walk_argv h ctx.pid ctx.arg1) _ rest in
    let size = length-walk h ctx.pid 64 ctx.arg1 [] entries walked in
    rw (sym (ok_injective built)) ((refl, tt, (refl, (omega arith), (refl, tt, tt))), refl)
