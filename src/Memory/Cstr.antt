-- ===== src/Memory/Cstr.antt =====
-- `read_cstr` against a search byte by byte of a memory made of pages.
use loi.Prelude.{
  ℕ, zero, suc, ◌+◌, ◌-◌, ◌%◌, ◌^◌, ◌≤◌, ◌<◌, min, ◌≡◌, refl, ap, ◌∙◌, inl, inr, none, some, List,
  [], ◌∷◌, ◌++◌, append_assoc, length, take, arith, ◌==◌, if◌then◌else◌, Option-cases,
}
use native.Mathlib.Nat.{add-zero, sub-zero}
use loi.Prelude.Result.{Result, ok, err, panic, ◌>>=◌}
use loi.Prelude.Word.{Profile}
use loi.Core.Types.{Pid, efault}
use loi.Memory.{MemError, vm, truncated_cstr, Readv, position_nul, scan, read_cstr}
use loi.Memory.Chunks.{chunk_size_lem}
use loi.Memory.Pages.{Memory, load, Serves, load-suc, read_bytes_lem, unmapped_in_span}

abbrev pub prepend : List ℕ → Result MemError (List ℕ) → Result MemError (List ℕ)
prepend bs r = r >>= λ s. ok (bs ++ s)

-- The search byte by byte. The first argument is the cap, the last what remains of it.
unfoldable pub find_cstr : ℕ → Memory → ℕ → ℕ → Result MemError (List ℕ)
find_cstr limit mem a zero = err (truncated_cstr limit)
find_cstr limit mem a (suc n) = elim (mem a) [
  | none ↦ err (vm efault)
  | some b ↦ if b == 0 then ok [] else prepend (b ∷ []) (find_cstr limit mem (suc a) n)
]

prepend-append :
    (a b : List ℕ) (r : Result MemError (List ℕ)) → prepend (a ++ b) r ≡ prepend a (prepend b r)
prepend-append a b (ok s) = ap ok (append_assoc a b s)
prepend-append a b (err e) = refl
prepend-append a b panic = refl

prepend-nil : (r : Result MemError (List ℕ)) → prepend [] r ≡ r
prepend-nil (ok s) = refl
prepend-nil (err e) = refl
prepend-nil panic = refl

module _ (limit : ℕ) (mem : Memory) where
  -- A mapped span with a zero byte ends the search, and one without is stepped over.
  found_in_span :
      (c n r : ℕ) (bs : List ℕ) (i : ℕ)
      → n ≤ r
      → load mem c n ≡ some bs
      → position_nul bs ≡ some i
      → find_cstr limit mem c r ≡ ok (take i bs)
  unfolding find_cstr
  found_in_span c zero r bs i le all at = ground arith
  found_in_span c (suc n) zero bs i le all at = absurd (omega arith)
  found_in_span c (suc n) (suc r) bs i le all at =
      let (b, rest, here, there, e) = load-suc mem c n bs all in
      elim (Option-cases (position_nul rest)) [
        | inl free ↦ ground arith
        | inr (j, later) ↦
            ground (arith, found_in_span (suc c) n r rest j (omega arith) there later)
      ]

  step_over_span :
      (c n r : ℕ) (bs : List ℕ)
      → n ≤ r
      → load mem c n ≡ some bs
      → position_nul bs ≡ none
      → find_cstr limit mem c r ≡ prepend bs (find_cstr limit mem (c + n) (r - n))
  unfolding find_cstr
  step_over_span c zero r bs le all free =
      rw (add-zero, sub-zero) (ground (arith, prepend-nil (find_cstr limit mem c r)))
  step_over_span c (suc n) zero bs le all free = absurd (omega arith)
  step_over_span c (suc n) (suc r) bs le all free =
      let (b, rest, here, there, e) = load-suc mem c n bs all in
      let onward : suc c + n ≡ c + suc n = omega arith in
      elim (Option-cases (position_nul rest)) [
        | inl free' ↦ rw (← onward) (
            ground (
              arith,
              step_over_span (suc c) n r rest (omega arith) there free',
              prepend-append (b ∷ []) rest (find_cstr limit mem (suc c + n) (r - n)),
            ))
        | inr (j, later) ↦ absurd (ground arith)
      ]

module _ (profile : Profile) (limit : ℕ) (mem : Memory) (readv : Readv) (pid : Pid)
    (h : Serves mem readv pid) where
  -- A span within one page that is not mapped starts with an address that is not.
  page_fault :
      (c n r : ℕ)
      → c % 4096 + n ≤ 4096
      → 0 < n
      → n ≤ r
      → load mem c n ≡ none
      → find_cstr limit mem c r ≡ err (vm efault)
  unfolding find_cstr
  page_fault c n zero within some_bytes le gone = absurd (omega arith)
  page_fault c n (suc r) within some_bytes le gone =
      let (j, lt, there) = unmapped_in_span mem c n gone in
      let first = h.pages (c + j) c (omega arith) there in rw (first, find_cstr)

  scan-eq-find_cstr :
      (rounds c r : ℕ) (out : List ℕ)
      → r ≤ rounds
      → c + r ≤ 2 ^ 64 - 4096
      → scan profile readv pid limit rounds c r out ≡ prepend out (find_cstr limit mem c r)
  unfolding scan
  scan-eq-find_cstr zero c zero out le fits = unfold find_cstr in refl
  scan-eq-find_cstr zero c (suc r) out le fits = absurd (omega arith)
  scan-eq-find_cstr (suc rounds) c zero out le fits = unfold find_cstr in refl
  scan-eq-find_cstr (suc rounds) c (suc r) out le fits =
      let n = min (suc r) (4096 - c % 4096) in
      rw (chunk_size_lem profile c (suc r) (omega arith), read_bytes_lem mem readv pid h c n)
        (elim (Option-cases (load mem c n)) [
          | inl gone ↦
              ground (arith, page_fault c n (suc r) (omega arith) (omega arith) (omega arith) gone)
          | inr (bs, all) ↦ elim (Option-cases (position_nul bs)) [
            | inl free ↦ ground (
              arith,
              step_over_span limit mem c n (suc r) bs (omega arith) all free,
              scan-eq-find_cstr rounds (c + n) (suc r - n) (out ++ bs) (omega arith) (omega arith),
              prepend-append out bs (find_cstr limit mem (c + n) (suc r - n)),
            )
            | inr (i, at) ↦
                ground (arith, found_in_span limit mem c n (suc r) bs i (omega arith) all at)
          ]
        ])

-- Below the last page, over memory that is mapped page by page, `read_cstr` gives what the search
-- byte by byte gives: the bytes before the first zero, the fault of an address that is not mapped
-- and is met before a zero, or the error for the cap. The bounds of its chunks do not show.
pub read_cstr-eq-find_cstr :
    (profile : Profile) (limit : ℕ) (mem : Memory) (readv : Readv) (pid : Pid) (addr : ℕ)
    → Serves mem readv pid
    → addr + limit ≤ 2 ^ 64 - 4096
    → read_cstr profile readv pid addr limit ≡ find_cstr limit mem addr limit
unfolding read_cstr
read_cstr-eq-find_cstr profile limit mem readv pid addr h fits =
    scan-eq-find_cstr profile limit mem readv pid h limit addr limit [] (omega arith) fits
    ∙ prepend-nil (find_cstr limit mem addr limit)

position_nul_end :
    (s : List ℕ) → position_nul s ≡ none → position_nul (s ++ 0 ∷ []) ≡ some (length s)
position_nul_end [] h = refl
position_nul_end (b ∷ s) h = ground (arith, position_nul_end s)

take_before : (s t : List ℕ) → take (length s) (s ++ t) ≡ s
take_before [] t = refl
take_before (b ∷ s) t = ap (◌∷◌ b) (take_before s t)

-- Where the address and the cap end below the last page of the address space, a string that stands
-- in memory with its terminator, shorter than the cap, is read back whole, also where the page after
-- it is not mapped.
pub read_cstr_stored :
    (profile : Profile) (limit : ℕ) (mem : Memory) (readv : Readv) (pid : Pid) (addr : ℕ)
    (s : List ℕ)
    → Serves mem readv pid
    → addr + limit ≤ 2 ^ 64 - 4096
    → load mem addr (suc (length s)) ≡ some (s ++ 0 ∷ [])
    → position_nul s ≡ none
    → length s < limit
    → read_cstr profile readv pid addr limit ≡ ok s
read_cstr_stored profile limit mem readv pid addr s h fits stored free short =
    read_cstr-eq-find_cstr profile limit mem readv pid addr h fits
    ∙ found_in_span limit mem addr (suc (length s)) limit (s ++ 0 ∷ []) (length s) short stored
        (position_nul_end s free)
    ∙ ap ok (take_before s (0 ∷ []))
