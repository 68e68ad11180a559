-- ===== src/Syscalls/Decoders/Waits.antt =====
-- What the decoder of `wait4` shows (crates/loi-syscalls/src/decoders/wait4.rs).
use loi.Prelude.{
  ℕ, ◌-◌, ◌^◌, ◌<◌, ◌≡◌, refl, ◌∙◌, inl, inr, true, not, ◌&&◌, List, [], ◌∷◌, length, ◌==◌,
  if◌then◌else◌, arith, Bool-cases,
}
use loi.Prelude.Int.{pos, negsuc, is_pos, as_i64, bits_of}
use loi.Prelude.Result.{ok}
use loi.Prelude.Text.{Text, text}
use loi.Prelude.Word.{from_le_bytes}
use loi.Memory.{read_bytes}
use loi.Memory.Overflow.{read_bytes_exact}
use loi.Syscalls.Decoder.{
  Host, DecodeCtx, DecodedArg, int, ptr, hex, flags, DecodedCall, decode_flags,
}
use loi.Syscalls.Decoders.Processes.{read_status_word, wait4_decode, options_table}

-- A decoded `wait4` with this for its status.
abbrev pub wait4_call : Host → DecodeCtx → DecodedArg → DecodedCall
wait4_call h ctx wstatus = record {
  args =
      (text "pid", int (as_i64 ctx.arg0))
      ∷ (text "wstatus", wstatus)
      ∷ (text "options", flags (decode_flags ctx.arg2 (options_table h.libc)))
      ∷ (text "rusage", ptr ctx.arg3)
      ∷ [];
  ret = ctx.ret;
}

-- The status word that the process finds at its address after a call that returned a process; the
-- address itself where there is no such word to read.
abbrev pub status_shown : Host → DecodeCtx → DecodedArg
status_shown h ctx =
    if is_pos ctx.ret && not (ctx.arg1 == 0)
    then elim (read_bytes h.readv ctx.pid ctx.arg1 4) [
      | ok bs ↦ hex (from_le_bytes bs)
      | _ ↦ ptr ctx.arg1
    ]
    else ptr ctx.arg1

-- `wait4` is always decoded, whatever the memory of the process holds: a word that cannot be read
-- costs the call nothing but the word.
pub wait4_total :
    (h : Host) (ctx : DecodeCtx) → wait4_decode h ctx ≡ ok (wait4_call h ctx (status_shown h ctx))
unfolding wait4_decode read_status_word
wait4_total h ctx = elim (Bool-cases (is_pos ctx.ret && not (ctx.arg1 == 0))) [
  | inr unread ↦ rw (unread, wait4_decode) refl
  | inl tried ↦ elim (read_bytes_exact h.readv ctx.pid ctx.arg1 4) [
    | inr (e, failed) ↦ rw (tried, wait4_decode) (rw (failed, read_status_word) refl)
    | inl (bs, read, exact) ↦
        let four : (length bs == 4) ≡ true = ground arith in
        rw (tried, wait4_decode) (rw (read, read_status_word) (rw (four, read_status_word) refl))
  ]
]

-- A negative pid of 32 bits whose upper half of the register is zero is shown as a positive number,
-- 2^32 more than it is.
pub wait4_pid_unsigned :
    (h : Host) (ctx : DecodeCtx) (n : ℕ)
    → n < 2 ^ 31
    → ctx.arg0 ≡ bits_of (2 ^ 32) (negsuc n)
    → (rest : List (Text × DecodedArg)) × (wait4_decode h ctx
        ≡ ok (record { args = (text "pid", int (pos (2 ^ 32 - 1 - n))) ∷ rest; ret = ctx.ret }))
wait4_pid_unsigned h ctx n small passed =
    let shown : as_i64 ctx.arg0 ≡ pos (2 ^ 32 - 1 - n) = rw passed (ground arith) in
    let call = wait4_call h ctx (status_shown h ctx) in
    (
      (text "wstatus", status_shown h ctx)
          ∷ (text "options", flags (decode_flags ctx.arg2 (options_table h.libc)))
          ∷ (text "rusage", ptr ctx.arg3)
          ∷ [],
      wait4_total h ctx ∙ rw shown refl,
    )
