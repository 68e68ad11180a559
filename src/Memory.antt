-- ===== src/Memory.antt =====
-- crates/loi-memory/src/lib.rs: reading the memory of a traced process. The call
-- `nix::sys::uio::process_vm_readv` is a parameter: its answer is the bytes that were transferred.
pub mod Chunks
pub mod Pages
pub mod Cstr
pub mod Overflow
use Prim.Native.Nat.{bit_or}
use loi.Prelude.{
  ℕ, zero, suc, ◌-◌, min, Option, none, some, List, [], ◌∷◌, ◌++◌, length, take, ◌==◌,
  if◌then◌else◌,
}
use loi.Prelude.Int.{ℤ}
use loi.Prelude.Result.{Result, ok, err, ◌>>=◌}
use loi.Prelude.Word.{Profile, add_u64, sub_u64}
use loi.Core.Types.{Pid, Errno, eperm, efault, enosys, Reply, done, fails}

pub data MemError : Type 0 where
  vm : Errno → MemError
  ptrace : Errno → MemError
  truncated_cstr : ℕ → MemError

abbrev pub page_size : ℕ
page_size = 4096

-- `process_vm_readv(pid, local, remote)` for one buffer and one span of the same length.
abbrev pub Readv : Type 0
Readv = Pid → ℕ → ℕ → Reply (List ℕ)

read_via_ptrace : Pid → ℕ → ℕ → Result MemError (List ℕ)
read_via_ptrace pid addr len = err (ptrace enosys)

-- The `match` of `read_bytes`. Of a full transfer the buffer holds the bytes. A host that can trace
-- has 64-bit addresses, so the conversion of `addr` to usize does not fail.
on_readv : Pid → ℕ → ℕ → Reply (List ℕ) → Result MemError (List ℕ)
unfolding read_via_ptrace
on_readv pid addr len (done bytes) = if length bytes == len then ok bytes else err (vm efault)
on_readv pid addr len (fails eperm) = read_via_ptrace pid addr len
on_readv pid addr len (fails e) = err (vm e)

-- `bytes.iter().position(|&b| b == 0)`
abbrev pub position_nul : List ℕ → Option ℕ
position_nul [] = none
position_nul (b ∷ bytes) =
    if b == 0 then some 0 else elim (position_nul bytes) [ none ↦ none | some i ↦ some (suc i) ]

module _ (readv : Readv) where
  unfoldable pub read_bytes : Pid → ℕ → ℕ → Result MemError (List ℕ)
  unfolding on_readv
  read_bytes pid addr len = on_readv pid addr len (readv pid addr len)

module _ (profile : Profile) where
  -- The number of bytes that the next chunk takes: up to the end of the page, or what remains. The
  -- difference fits usize.
  unfoldable pub chunk_size : ℕ → ℕ → Result MemError ℕ
  chunk_size cursor remaining = do
    next_page ← add_u64 profile (bit_or cursor 4095) 1
    to_page ← sub_u64 profile next_page cursor
    ok (min remaining to_page)

module _ (profile : Profile) (readv : Readv) (pid : Pid) (limit : ℕ) where
  -- The loop of `read_cstr`, for at most as many rounds as the first argument. Each takes a byte
  -- at least, so as many as remain are enough, and the first clause is reached with none.
  unfoldable pub scan : ℕ → ℕ → ℕ → List ℕ → Result MemError (List ℕ)
  scan zero cursor remaining out = err (truncated_cstr limit)
  scan (suc rounds) cursor remaining out = if remaining == 0 then err (truncated_cstr limit) else do
    chunk ← chunk_size profile cursor remaining
    bytes ← read_bytes readv pid cursor chunk
    elim (position_nul bytes) [
      | some i ↦ ok (out ++ take i bytes)
      | none ↦ do
        cursor' ← add_u64 profile cursor chunk
        scan rounds cursor' (remaining - chunk) (out ++ bytes)
    ]

unfoldable pub read_cstr : Profile → Readv → Pid → ℕ → ℕ → Result MemError (List ℕ)
read_cstr profile readv pid addr limit = scan profile readv pid limit limit addr limit []
