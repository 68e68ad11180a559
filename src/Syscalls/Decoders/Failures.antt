-- ===== src/Syscalls/Decoders/Failures.antt =====
-- When the decoders (crates/loi-syscalls/src/decoders) fail: as the reads of memory that they need.
use loi.Prelude.{
  ℕ, ◌≡◌, refl, ◌∙◌, inl, inr, ◌==◌, if◌then◌else◌, ltb, min, true, false, [], ◌∷◌, All, arith,
  Bool-cases,
}
use loi.Prelude.Int.{ℤ, pos, negsuc, is_pos, pos_part}
use loi.Prelude.Result.{Result, ok, err, panic, ◌>>=◌, map_err}
use loi.Memory.{MemError, read_bytes, read_cstr}
use loi.Syscalls.Decoder.{memory, DecodeCtx, Decoder, Host, decode_path}
use loi.Syscalls.Decoder.Fds.{decode_fd-as_i32}
use loi.Syscalls.Decoders.Files
use loi.Syscalls.Decoders.Files.{read_inline, write_inline, write_want, buffer_call}
use loi.Syscalls.Decoders.Reads.{write_want_lem}
use loi.Syscalls.Decoders.Stat
use loi.Syscalls.Decoders.Maps
use loi.Syscalls.Decoders.Processes
use loi.Syscalls.Decoders.Processes.{Arch}
use loi.Syscalls.Decoders.Infallible.{IsInfallible, six-IsInfallible}

-- How a call ended, without its result.
abbrev pub forget {ℓ κ} : {E : Type ℓ} {A : Type κ} → Result E A → Result E (Unit {0})
forget (ok a) = ok tt
forget (err e) = err e
forget panic = panic

forget->>= {ℓ κ ι} :
    {E : Type ℓ} {A : Type κ} {B : Type ι} (r : Result E A) (next : A → Result E B)
    → ((a : A) → forget (next a) ≡ ok tt)
    → forget (r >>= next) ≡ forget r
forget->>= (ok a) next goes = goes a
forget->>= (err e) next goes = refl
forget->>= panic next goes = refl

forget-map_err {ℓ κ ι} :
    {E : Type ℓ} {F : Type κ} {A : Type ι} (f : E → F) (r : Result E A)
    → forget (map_err f r) ≡ map_err f (forget r)
forget-map_err f (ok a) = refl
forget-map_err f (err e) = refl
forget-map_err f panic = refl

-- The reads that a decoder cannot do without.
abbrev pub Needs : Type 0
Needs = Host → DecodeCtx → Result MemError (Unit {0})

abbrev pub nothing : Needs
nothing h ctx = ok tt

-- A path of 4096 bytes at most.
abbrev pub path_at : (DecodeCtx → ℕ) → Needs
path_at addr h ctx = forget (read_cstr h.profile h.readv ctx.pid (addr ctx) 4096)

-- So many bytes of the buffer, if any.
abbrev pub buffer_of : (ℤ → ℕ → ℕ) → Needs
buffer_of size h ctx =
    let n = size ctx.ret ctx.arg2 in
    if n == 0 then ok tt else forget (read_bytes h.readv ctx.pid ctx.arg1 n)

-- Of a call that read something, 64 bytes at most.
abbrev pub bytes_read : ℤ → ℕ → ℕ
bytes_read ret count = min (pos_part ret) 64

-- Of what was written, or of all that was asked for if the call failed or wrote nothing.
abbrev pub bytes_written : ℤ → ℕ → ℕ
bytes_written ret count = min (if is_pos ret then min (pos_part ret) count else count) 64

-- A decoder ends as the reads that it needs: with a call where they all end well, with their error,
-- or in their panic.
abbrev pub EndsAt : Host → DecodeCtx → Decoder → Needs → Type 0
EndsAt h ctx d needs = forget (d.decode h ctx) ≡ map_err memory (needs h ctx)

abbrev pub EndsAs : Decoder → Needs → Type 0
EndsAs d needs = (h : Host) (ctx : DecodeCtx) → EndsAt h ctx d needs

decode_path-forget :
    (h : Host) (pid : ℤ) (addr : ℕ)
    → forget (decode_path h pid addr)
      ≡ map_err memory (forget (read_cstr h.profile h.readv pid addr 4096))
unfolding decode_path
decode_path-forget h pid addr =
    forget->>= (map_err memory (read_cstr h.profile h.readv pid addr 4096)) _ (λ bs. refl)
    ∙ forget-map_err memory (read_cstr h.profile h.readv pid addr 4096)

openat-EndsAs : EndsAs Files.open_at (path_at (λ ctx. ctx.arg1))
unfolding Files.openat_decode
openat-EndsAs h ctx =
    forget->>= (decode_path h ctx.pid ctx.arg1) _
      (λ p. rw (decode_fd-as_i32 h.profile ctx.arg0) refl)
    ∙ decode_path-forget h ctx.pid ctx.arg1

statx-EndsAs : EndsAs Stat.statx (path_at (λ ctx. ctx.arg1))
unfolding Stat.statx_decode
statx-EndsAs h ctx =
    forget->>= (decode_path h ctx.pid ctx.arg1) _
      (λ p. rw (decode_fd-as_i32 h.profile ctx.arg0) refl)
    ∙ decode_path-forget h ctx.pid ctx.arg1

stat-EndsAs : EndsAs Stat.stat (path_at (λ ctx. ctx.arg0))
unfolding Stat.stat_decode
stat-EndsAs h ctx =
    forget->>= (decode_path h ctx.pid ctx.arg0) _ (λ p. refl)
    ∙ decode_path-forget h ctx.pid ctx.arg0

read_inline-forget :
    (h : Host) (ctx : DecodeCtx) (ret : ℤ)
    → forget (read_inline h ctx ret)
      ≡ map_err memory (
          let n = bytes_read ret ctx.arg2 in
          if n == 0 then ok tt else forget (read_bytes h.readv ctx.pid ctx.arg1 n))
unfolding read_inline
read_inline-forget h ctx (negsuc n) = refl
read_inline-forget h ctx (pos n) = elim (Bool-cases (ltb 0 n)) [
  | inr empty ↦
      let zero_bytes : (min n 64 == 0) ≡ true = ground arith in
      rw (empty, read_inline) (rw zero_bytes refl)
  | inl some_read ↦
      let more : (min n 64 == 0) ≡ false = ground arith in
      rw (some_read, read_inline)
        (rw more (forget-map_err memory (read_bytes h.readv ctx.pid ctx.arg1 (min n 64))))
]

write_inline-forget :
    (h : Host) (ctx : DecodeCtx) (n : ℕ)
    → forget (write_inline h ctx n)
      ≡ map_err memory (if n == 0 then ok tt else forget (read_bytes h.readv ctx.pid ctx.arg1 n))
unfolding write_inline
write_inline-forget h ctx n = elim (Bool-cases (n == 0)) [
  | inl empty ↦ rw (empty, write_inline) refl
  | inr more ↦
      rw (more, write_inline) (forget-map_err memory (read_bytes h.readv ctx.pid ctx.arg1 n))
]

read-EndsAs : EndsAs Files.read (buffer_of bytes_read)
unfolding Files.read_decode
read-EndsAs h ctx =
    forget->>= (read_inline h ctx ctx.ret) _ (λ bs. rw (decode_fd-as_i32 h.profile ctx.arg0) refl)
    ∙ read_inline-forget h ctx ctx.ret

write-EndsAs : EndsAs Files.write (buffer_of bytes_written)
unfolding Files.write_decode
write-EndsAs h ctx =
    let want = write_want ctx.ret ctx.arg2 in
    forget->>= (write_inline h ctx want) _ (λ bs. rw (decode_fd-as_i32 h.profile ctx.arg0) refl)
    ∙ (write_inline-forget h ctx want ∙ rw (write_want_lem ctx.ret ctx.arg2) refl)

infallible-EndsAs : (d : Decoder) → IsInfallible d → EndsAs d nothing
infallible-EndsAs d total h ctx = let (call, decoded, same) = total h ctx in rw decoded refl

-- Which reads a decoder cannot do without: openat, statx and stat their path, `read` and `write` the
-- part of their buffer that they show, and the six others nothing. It ends as these reads end: with a
-- call where they end well, with their error, or with their panic, in either build.
pub decoders-EndsAs :
    (arch : Arch) (h : Host) (ctx : DecodeCtx)
    → All
        (λ (row : Decoder × Needs). EndsAt h ctx row.0 row.1)
        ((Files.open_at, path_at (λ ctx. ctx.arg1))
          ∷ (Stat.statx, path_at (λ ctx. ctx.arg1))
          ∷ (Stat.stat, path_at (λ ctx. ctx.arg0))
          ∷ (Files.read, buffer_of bytes_read)
          ∷ (Files.write, buffer_of bytes_written)
          ∷ (Files.close, nothing)
          ∷ (Stat.fstat, nothing)
          ∷ (Maps.mmap, nothing)
          ∷ (Maps.mprotect, nothing)
          ∷ (Processes.clone arch, nothing)
          ∷ (Processes.wait4, nothing)
          ∷ [])
decoders-EndsAs arch h ctx =
    let (close, (fstat, (mmap, (mprotect, (clone, (wait4, rest)))))) = six-IsInfallible arch in
    (
      openat-EndsAs h ctx,
      (
        statx-EndsAs h ctx,
        (
          stat-EndsAs h ctx,
          (
            read-EndsAs h ctx,
            (
              write-EndsAs h ctx,
              (
                infallible-EndsAs Files.close close h ctx,
                (
                  infallible-EndsAs Stat.fstat fstat h ctx,
                  (
                    infallible-EndsAs Maps.mmap mmap h ctx,
                    (
                      infallible-EndsAs Maps.mprotect mprotect h ctx,
                      (
                        infallible-EndsAs (Processes.clone arch) clone h ctx,
                        (infallible-EndsAs Processes.wait4 wait4 h ctx, tt),
                      ),
                    ),
                  ),
                ),
              ),
            ),
          ),
        ),
      ),
    )
