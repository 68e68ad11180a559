-- ===== src/Memory/Overflow.antt =====
-- When the address arithmetic of `read_cstr` overflows, and that nothing else panics.
use Prim.Native.Nat.{bit_or}
use loi.Prelude.{
  ℕ, zero, suc, ◌+◌, ◌-◌, ◌%◌, ◌^◌, ◌≤◌, ◌<◌, min, ◌≡◌, refl, ◌≢◌, inl, inr, ◌⊎◌, List, [], ◌++◌,
  arith, Bool-cases, length, ◌==◌, ltb, leb, if◌then◌else◌,
}
use loi.Prelude.Result.{ok, err, panic}
use loi.Prelude.Word.{Profile, dev, release}
use loi.Core.Types.{Pid, Reply, done, fails, eperm, efault, enosys}
use loi.Memory.{MemError, Readv, read_bytes, chunk_size, scan, read_cstr, on_readv, vm, ptrace}
use loi.Memory.Chunks.{chunk_size_lem, chunk_size_dev}

exact_of :
    (pid : Pid) (addr len : ℕ) (reply : Reply (List ℕ))
    → ((bs : List ℕ) × (on_readv pid addr len reply ≡ ok bs) × (length bs ≡ len))
      ⊎ ((e : MemError) × (on_readv pid addr len reply ≡ err e))
unfolding on_readv
exact_of pid addr len (done bs) = elim (Bool-cases (length bs == len)) [
  | inl full ↦ inl (bs, rw full refl, ground arith)
  | inr short ↦ inr (vm efault, rw short refl)
]
exact_of pid addr len (fails eperm) = inr (ptrace enosys, refl)
exact_of pid addr len (fails e) = inr (vm e, refl)

-- A read of an exact length returns that many bytes or an error, never a panic.
pub read_bytes_exact :
    (readv : Readv) (pid : Pid) (addr len : ℕ)
    → ((bs : List ℕ) × (read_bytes readv pid addr len ≡ ok bs) × (length bs ≡ len))
      ⊎ ((e : MemError) × (read_bytes readv pid addr len ≡ err e))
unfolding read_bytes
read_bytes_exact readv pid addr len = exact_of pid addr len (readv pid addr len)

transferred_of :
    (pid : Pid) (addr len : ℕ) (r : Reply (List ℕ)) {bs : List ℕ}
    → on_readv pid addr len r ≡ ok bs
    → r ≡ done bs
unfolding on_readv
transferred_of pid addr len (done bs) h = ground arith
transferred_of pid addr len (fails eperm) h = cc
transferred_of pid addr len (fails e) h = cc

-- What a read gives is what the kernel transferred for these very arguments.
pub read_bytes_transferred :
    (readv : Readv) (pid : Pid) (addr len : ℕ) (bs : List ℕ)
    → read_bytes readv pid addr len ≡ ok bs
    → readv pid addr len ≡ done bs
unfolding read_bytes
read_bytes_transferred readv pid addr len bs h = transferred_of pid addr len (readv pid addr len) h

-- The chunk of a release build, with both wrap-arounds.
abbrev wrapping_chunk : ℕ → ℕ → ℕ
wrapping_chunk c r =
    let next =
      if ltb (bit_or c 4095 + 1) (2 ^ 64)
      then bit_or c 4095 + 1
      else (bit_or c 4095 + 1) % 2 ^ 64 in
    min r (if leb c next then next - c else (next + 2 ^ 64 - c) % 2 ^ 64)

chunk_size_release_ok : (c r : ℕ) → chunk_size release c r ≡ ok (wrapping_chunk c r)
unfolding chunk_size
chunk_size_release_ok c r = ground arith

module _ (readv : Readv) (pid : Pid) (limit : ℕ) where
  scan_release :
      (rounds c r : ℕ) (out : List ℕ) → scan release readv pid limit rounds c r out ≢ panic
  unfolding scan
  scan_release zero c r out h = cc
  scan_release (suc rounds) c r out h =
      let n = wrapping_chunk c r in
      let sized = chunk_size_release_ok c r in
      elim (read_bytes_exact readv pid c n) [
        | inl (bs, read, len) ↦ ground (
          arith,
          scan_release rounds (c + n) (r - n) (out ++ bs),
          scan_release rounds ((c + n) % 2 ^ 64) (r - n) (out ++ bs),
        )
        | inr (e, failed) ↦ ground arith
      ]

  scan_dev :
      (rounds c r : ℕ) (out : List ℕ)
      → c + r ≤ 2 ^ 64 - 4096
      → scan dev readv pid limit rounds c r out ≢ panic
  unfolding scan
  scan_dev zero c r out fits h = cc
  scan_dev (suc rounds) c zero out fits h = cc
  scan_dev (suc rounds) c (suc r) out fits h =
      let n = min (suc r) (4096 - c % 4096) in
      let sized = chunk_size_lem dev c (suc r) (omega arith) in
      elim (read_bytes_exact readv pid c n) [
        | inl (bs, read, len) ↦
            ground (arith, scan_dev rounds (c + n) (suc r - n) (out ++ bs) (omega arith))
        | inr (e, failed) ↦ ground arith
      ]

  -- Whatever the kernel answers, reading a C string does not panic in a release build, nor in a
  -- build with overflow checks if the cap ends below the last page of the address space.
  pub read_cstr_no_panic :
      (profile : Profile) (addr : ℕ)
      → (profile ≡ release) ⊎ (addr + limit ≤ 2 ^ 64 - 4096)
      → read_cstr profile readv pid addr limit ≢ panic
  unfolding read_cstr
  read_cstr_no_panic release addr h = scan_release limit addr limit []
  read_cstr_no_panic dev addr (inl e) = cc
  read_cstr_no_panic dev addr (inr fits) = scan_dev limit addr limit [] fits

-- In a build with overflow checks every address of the last page panics, whatever the kernel would
-- answer.
pub read_cstr_dev_panics :
    (readv : Readv) (pid : Pid) (limit addr : ℕ)
    → 0 < limit
    → 2 ^ 64 - 4096 ≤ addr
    → addr < 2 ^ 64
    → read_cstr dev readv pid addr limit ≡ panic
unfolding read_cstr scan
read_cstr_dev_panics readv pid zero addr some_cap lo hi = absurd (omega arith)
read_cstr_dev_panics readv pid (suc limit) addr some_cap lo hi =
    ground (arith, chunk_size_dev addr (suc limit) lo hi)
