-- ===== src/Syscalls/Decoders/Reads.antt =====
-- What `read` and `write` capture of their buffers.
use loi.Prelude.{
  sym, ℕ, min, ◌≡◌, refl, false, List, [], length, ◌==◌, ltb, if◌then◌else◌, arith, inl, inr, ◌⊎◌,
  Bool-cases,
}
use loi.Prelude.Int.{ℤ, pos, negsuc, is_pos, pos_part}
use loi.Prelude.Result.{ok, map_err, >>=-eq-ok, ok_injective}
use loi.Memory.{read_bytes}
use loi.Core.Types.{done}
use loi.Memory.Overflow.{read_bytes_exact, read_bytes_transferred}
use loi.Syscalls.Decoder.{DecodeCtx, memory, DecodedCall, Host}
use loi.Syscalls.Decoder.Fds.{fd_of_register, decode_fd-as_i32}
use loi.Syscalls.Decoders.Files.{
  read_decode, write_decode, write_want, buffer_call, read_inline, write_inline,
}

-- How much `read` captures, by its result.
abbrev pub read_want : ℤ → ℕ
read_want (pos n) = min n 64
read_want (negsuc n) = 0

-- So many bytes are captured, and they are what the kernel transferred from the second register.
abbrev pub IsCaptured : Host → DecodeCtx → ℕ → List ℕ → Type 0
IsCaptured h ctx want inline =
    (length inline ≡ want) × ((want ≡ 0) ⊎ (h.readv ctx.pid ctx.arg1 want ≡ done inline))

transferred-IsCaptured :
    (h : Host) (ctx : DecodeCtx) (len : ℕ) (bs : List ℕ)
    → map_err memory (read_bytes h.readv ctx.pid ctx.arg1 len) ≡ ok bs
    → IsCaptured h ctx len bs
transferred-IsCaptured h ctx len bs captured =
    elim (read_bytes_exact h.readv ctx.pid ctx.arg1 len) [
      | inl (bs', read, exact) ↦
          let same : bs' ≡ bs = ground arith in
          rw (sym same) (exact, inr (read_bytes_transferred h.readv ctx.pid ctx.arg1 len bs' read))
      | inr (e, failed) ↦ absurd (ground arith)
    ]

read_inline-IsCaptured :
    (h : Host) (ctx : DecodeCtx) (z : ℤ) (bs : List ℕ)
    → read_inline h ctx z ≡ ok bs
    → IsCaptured h ctx (read_want z) bs
unfolding read_inline
read_inline-IsCaptured h ctx (negsuc n) bs captured = (ground arith, inl refl)
read_inline-IsCaptured h ctx (pos n) bs captured = elim (Bool-cases (ltb 0 n)) [
  | inl some_read ↦
      transferred-IsCaptured h ctx (min n 64) bs (rw (some_read, read_inline) at captured)
  | inr none_read ↦ (ground arith, inl (ground arith))
]

-- A decoded `read` is the call with the descriptor of its first register and exactly as many bytes
-- as the result says, at most 64, and none of a failed or empty read; and these bytes are what the
-- kernel transferred from the address in its second register, the buffer.
pub read_captures :
    (h : Host) (ctx : DecodeCtx) (call : DecodedCall)
    → read_decode h ctx ≡ ok call
    → (inline : List ℕ) × (call ≡ buffer_call ctx (fd_of_register ctx.arg0) inline)
      × IsCaptured h ctx (read_want ctx.ret) inline
unfolding read_decode
read_captures h ctx call decoded =
    let (inline, captured, rest) = >>=-eq-ok (read_inline h ctx ctx.ret) _ decoded in
    (
      inline,
      ok_injective (sym (rw (decode_fd-as_i32 h.profile ctx.arg0) at rest)),
      read_inline-IsCaptured h ctx ctx.ret inline captured,
    )

read_inline_nothing :
    (h : Host) (ctx : DecodeCtx) (z : ℤ) → is_pos z ≡ false → read_inline h ctx z ≡ ok []
unfolding read_inline
read_inline_nothing h ctx (negsuc n) none_read = refl
read_inline_nothing h ctx (pos n) none_read = rw none_read

-- A failed or empty `read` is decoded whatever the memory of the process holds.
pub read_needs_no_memory :
    (h : Host) (ctx : DecodeCtx)
    → is_pos ctx.ret ≡ false
    → read_decode h ctx ≡ ok (buffer_call ctx (fd_of_register ctx.arg0) [])
unfolding read_decode
read_needs_no_memory h ctx none_read =
    rw (read_inline_nothing h ctx ctx.ret none_read, decode_fd-as_i32 h.profile ctx.arg0)

write_inline-IsCaptured :
    (h : Host) (ctx : DecodeCtx) (want : ℕ) (bs : List ℕ)
    → write_inline h ctx want ≡ ok bs
    → IsCaptured h ctx want bs
unfolding write_inline
write_inline-IsCaptured h ctx want bs captured = elim (Bool-cases (want == 0)) [
  | inl nothing ↦ (ground arith, inl (ground arith))
  | inr some_bytes ↦
      transferred-IsCaptured h ctx want bs (rw (some_bytes, write_inline) at captured)
]

pub write_want_lem :
    (z : ℤ) (total : ℕ)
    → write_want z total ≡ min (if is_pos z then min (pos_part z) total else total) 64
write_want_lem (pos n) total = ground arith
write_want_lem (negsuc n) total = refl

-- A decoded `write` is the call with the descriptor of its first register and bytes that the kernel
-- transferred from the address in its second register, the buffer: no more than 64, no more than were
-- asked for, and of a positive result no more than that; and exactly the least of these.
pub write_captures :
    (h : Host) (ctx : DecodeCtx) (call : DecodedCall)
    → write_decode h ctx ≡ ok call
    → (inline : List ℕ) × (call ≡ buffer_call ctx (fd_of_register ctx.arg0) inline)
      × IsCaptured h ctx
          (min (if is_pos ctx.ret then min (pos_part ctx.ret) ctx.arg2 else ctx.arg2) 64)
          inline
unfolding write_decode
write_captures h ctx call decoded =
    let want = write_want ctx.ret ctx.arg2 in
    let (inline, captured, rest) = >>=-eq-ok (write_inline h ctx want) _ decoded in
    (
      inline,
      ok_injective (sym (rw (decode_fd-as_i32 h.profile ctx.arg0) at rest)),
      rw (sym (write_want_lem ctx.ret ctx.arg2))
          (write_inline-IsCaptured h ctx want inline captured),
    )
