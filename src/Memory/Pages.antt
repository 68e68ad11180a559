-- ===== src/Memory/Pages.antt =====
-- Memory as a function from addresses, and what `read_bytes` gives of its spans.
use loi.Prelude.{
  ℕ, zero, suc, ◌+◌, ◌/◌, ◌<◌, ◌≡◌, refl, ◌⊎◌, inl, inr, Option, none, some, List, [], ◌∷◌, length,
  arith, Option-cases,
}
use native.Mathlib.Nat.{add-zero}
use loi.Prelude.Result.{ok, err}
use loi.Core.Types.{Pid, efault, done, fails}
use loi.Memory.{vm, Readv, read_bytes}

-- The memory of a process: the byte at an address, if it is mapped.
abbrev pub Memory : Type 0
Memory = ℕ → Option ℕ

-- The bytes of a span, if all of it is mapped.
abbrev pub load : Memory → ℕ → ℕ → Option (List ℕ)
load mem a zero = some []
load mem a (suc n) = elim (mem a) [
  | none ↦ none
  | some b ↦ elim (load mem (suc a) n) [ none ↦ none | some bs ↦ some (b ∷ bs) ]
]

-- What is documented of `process_vm_readv` and of pages, for one process: a span that is mapped is
-- transferred whole; of any other the call reports a fault or a shorter transfer; and a page is
-- mapped as a whole.
pub record Serves (mem : Memory) (readv : Readv) (pid : Pid) : Type 0 where
  pub whole : (a n : ℕ) (bs : List ℕ) → load mem a n ≡ some bs → readv pid a n ≡ done bs
  pub partial :
      (a n : ℕ)
      → load mem a n ≡ none
      → (readv pid a n ≡ fails efault)
        ⊎ ((bs : List ℕ) × (length bs < n) × (readv pid a n ≡ done bs))
  pub pages : (a b : ℕ) → a / 4096 ≡ b / 4096 → mem a ≡ none → mem b ≡ none

-- A mapped span of one byte at least is its first byte and a mapped rest.
pub load-suc :
    (mem : Memory) (a n : ℕ) (bs : List ℕ)
    → load mem a (suc n) ≡ some bs
    → (b : ℕ) × (rest : List ℕ) × (mem a ≡ some b)
      × (load mem (suc a) n ≡ some rest)
      × (bs ≡ b ∷ rest)
load-suc mem a n bs h = elim (Option-cases (mem a)) [
  | inl gone ↦ absurd (ground arith)
  | inr (b, here) ↦ elim (Option-cases (load mem (suc a) n)) [
    | inl gone ↦ absurd (ground arith)
    | inr (rest, there) ↦ (b, rest, here, there, ground arith)
  ]
]

pub length-load : (mem : Memory) (a n : ℕ) (bs : List ℕ) → load mem a n ≡ some bs → length bs ≡ n
length-load mem a zero bs h = ground arith
length-load mem a (suc n) bs h =
    let (b, rest, here, there, e) = load-suc mem a n bs h in
    ground (arith, length-load mem (suc a) n rest there)

module _ (mem : Memory) (readv : Readv) (pid : Pid) (h : Serves mem readv pid) where
  -- A read of an exact length succeeds exactly on a mapped span.
  pub read_bytes_lem :
      (a n : ℕ)
      → read_bytes readv pid a n ≡ elim (load mem a n) [ none ↦ err (vm efault) | some bs ↦ ok bs ]
  unfolding read_bytes
  read_bytes_lem a n = elim (Option-cases (load mem a n)) [
    | inl gone ↦ elim (h.partial a n gone) [
      | inl fault ↦ rw (fault, gone) refl
      | inr (bs, short, part) ↦ rw (gone, part) (ground arith)
    ]
    | inr (bs, all) ↦ rw (all, h.whole a n bs all) (ground (arith, length-load mem a n bs all))
  ]

-- A span that is not mapped has an address that is not.
pub unmapped_in_span :
    (mem : Memory) (c n : ℕ) → load mem c n ≡ none → (j : ℕ) × (j < n) × (mem (c + j) ≡ none)
unmapped_in_span mem c zero h = absurd (ground arith)
unmapped_in_span mem c (suc n) h = elim (Option-cases (mem c)) [
  | inl gone ↦ (0, omega arith, rw add-zero gone)
  | inr (b, here) ↦ elim (Option-cases (load mem (suc c) n)) [
    | inl gone ↦
        let (j, lt, there) = unmapped_in_span mem (suc c) n gone in
        let onward : c + suc j ≡ suc c + j = omega arith in (suc j, omega arith, rw onward there)
    | inr (rest, there) ↦ absurd (ground arith)
  ]
]
