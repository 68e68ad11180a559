-- ===== src/Core/Spawn/Pipes.antt =====
-- What `write_all` and `read_full` (crates/loi-core/src/tracer.rs) carry through a pipe.
use loi.Prelude.{
  ℕ, zero, suc, ◌+◌, ◌-◌, ◌^◌, ◌≤◌, ◌<◌, ◌≡◌, refl, ap, ◌∙◌, sym, ◌⊎◌, inl, inr, some, true, false,
  List, [], ◌∷◌, ◌++◌, append_assoc, append-nil, length, take, drop, length-append, length-take,
  length-drop, leb, ◌==◌, arith, Bool-cases, leb→le,
}
use loi.Prelude.Int.{ℤ, pos, negsuc, IsI32, as_i32, bits_of}
use loi.Prelude.Word.{from_le_bytes}
use loi.Prelude.Result.{ok}
use loi.Core.Types.{Errno, eintr, exec, tracee_gone, done, fails}
use loi.Core.Spawn.{Pipe, read_full, read_exec_errno}
use loi.Core.Spawn.Child.{Sink, write_all, word_bytes, to_le_bytes}

pub take-append-drop {ℓ} : {A : Type ℓ} (n : ℕ) (xs : List A) → take n xs ++ drop n xs ≡ xs
take-append-drop zero xs = refl
take-append-drop (suc n) [] = refl
take-append-drop (suc n) (x ∷ xs) = ap (λ ys. x ∷ ys) (take-append-drop n xs)

-- A pipe takes at least one of the bytes it is given, and is interrupted only in the first calls.
abbrev pub Takes : Sink → ℕ → Type 0
Takes sink limit =
    (calls len : ℕ)
    → ((n : ℕ) × (sink calls (suc len) ≡ done (suc n)) × (n ≤ len))
      ⊎ ((calls < limit) × (sink calls (suc len) ≡ fails eintr))

-- All the bytes are sent, in order, however the pipe cuts them.
pub write_all_sends :
    (sink : Sink) (limit : ℕ)
    → Takes sink limit
    → (rounds calls : ℕ) (buf sent : List ℕ) → limit - calls + length buf ≤ rounds
    → write_all sink rounds calls buf sent ≡ (some (ok tt), sent ++ buf)
unfolding write_all
write_all_sends sink limit takes zero calls [] sent h = rw (append-nil sent) refl
write_all_sends sink limit takes (suc rounds) calls [] sent h = rw (append-nil sent) refl
write_all_sends sink limit takes zero calls (b ∷ buf) sent h = absurd (omega arith)
write_all_sends sink limit takes (suc rounds) calls (b ∷ buf) sent h =
    elim (takes calls (length buf)) [
      | inl (n, took, fits) ↦
          let enough : limit - suc calls + length (drop n buf) ≤ rounds =
            omega (arith, length-drop n buf) in
          let within : leb n (length buf) ≡ true = ground arith in
          rw (took, write_all)
            (rw (within, write_all)
              (write_all_sends sink limit takes rounds (suc calls) (drop n buf)
                  (sent ++ b ∷ take n buf) enough
                ∙ rw (append_assoc sent, take-append-drop n buf) refl))
      | inr (early, interrupted) ↦
          rw (interrupted, write_all)
            (write_all_sends sink limit takes rounds (suc calls) (b ∷ buf) sent (omega arith))
    ]

-- A read of a pipe answers with some of the wanted bytes, those that come next, or with none at the
-- end, and is interrupted only in the first calls.
abbrev pub Delivers : Pipe → ℕ → ℕ → List ℕ → Type 0
Delivers pipe limit len bytes =
    (calls before want : ℕ)
    → before + suc want ≡ len
    → ((n : ℕ) × (pipe calls (suc want) ≡ done (take (suc n) (drop before bytes))) × (n ≤ want))
      ⊎ ((calls < limit) × (pipe calls (suc want) ≡ fails eintr))

module _ {ℓ} {A : Type ℓ} where
  drop-append : (xs ys : List A) → drop (length xs) (xs ++ ys) ≡ ys
  drop-append [] ys = refl
  drop-append (x ∷ xs) ys = drop-append xs ys

  take-append : (xs ys : List A) → take (length xs) (xs ++ ys) ≡ xs
  take-append [] ys = refl
  take-append (x ∷ xs) ys = ap (λ zs. x ∷ zs) (take-append xs ys)

  take_all : (n : ℕ) (xs : List A) → length xs ≤ n → take n xs ≡ xs
  take_all zero [] h = refl
  take_all (suc n) [] h = refl
  take_all zero (x ∷ xs) h = absurd (omega arith)
  take_all (suc n) (x ∷ xs) h = ap (λ zs. x ∷ zs) (take_all n xs (omega arith))

module _ (pipe : Pipe) (limit len : ℕ) where
  -- The answer to the next call, once so many bytes are there.
  next_answer :
      (filled todo : List ℕ) (calls : ℕ)
      → Delivers pipe limit len (filled ++ todo)
      → length filled < len
      → ((n : ℕ) × (pipe calls (len - length filled) ≡ done (take (suc n) todo))
          × (length filled + n < len))
        ⊎ ((calls < limit) × (pipe calls (len - length filled) ≡ fails eintr))
  next_answer filled todo calls delivers more =
      let want = len - length filled - 1 in
      let size : len - length filled ≡ suc want = omega arith in
      elim (delivers calls (length filled) want (omega arith)) [
        | inl (n, answer, fits) ↦
            inl (n, rw size (answer ∙ rw (drop-append filled todo) refl), omega arith)
        | inr (early, interrupted) ↦ inr (early, rw size interrupted)
      ]

  full : (filled todo : List ℕ) → length filled ≡ len → filled ≡ take len (filled ++ todo)
  full filled todo h = rw (sym h) (sym (take-append filled todo))

  -- A read that is not interrupted ends the loop, or brings it closer to all the bytes.
  advance :
      (rounds calls : ℕ) (filled todo : List ℕ) (n : ℕ)
      → length filled + n < len
      → pipe calls (len - length filled) ≡ done (take (suc n) todo)
      → ((filled' todo' : List ℕ)
          → filled' ++ todo' ≡ filled ++ todo
          → length filled < length filled'
          → length filled' ≤ len
          → read_full pipe rounds (suc calls) len filled' ≡ some (done (take len (filled ++ todo))))
      → leb len (length filled) ≡ false
      → read_full pipe (suc rounds) calls len filled ≡ some (done (take len (filled ++ todo)))
  unfolding read_full
  advance rounds calls filled [] n within answer next missing =
      let short = take_all len (filled ++ []) (omega (arith, length-append filled [])) in
      rw (missing, read_full) (rw (answer, read_full) (rw (short, append-nil filled) refl))
  advance rounds calls filled (b ∷ todo) n within answer next missing =
      let got = b ∷ take n todo in
      rw (missing, read_full)
        (rw (answer, read_full)
          (next (filled ++ got) (drop n todo)
            (rw (append_assoc filled, take-append-drop n todo) refl)
            (omega (arith, length-append filled got))
            (omega (arith, length-append filled got, length-take n todo))))

  -- The bytes are read in order, up to as many as are wanted, however the pipe cuts them.
  pub read_full_reads :
      (rounds calls : ℕ) (filled todo : List ℕ)
      → Delivers pipe limit len (filled ++ todo)
      → length filled ≤ len
      → limit - calls + (len - length filled) ≤ rounds
      → read_full pipe rounds calls len filled ≡ some (done (take len (filled ++ todo)))
  unfolding read_full
  read_full_reads zero calls filled todo delivers fits enough =
      let there : leb len (length filled) ≡ true = ground arith in
      rw (there, read_full) (ap (λ bs. some (done bs)) (full filled todo (omega arith)))
  read_full_reads (suc rounds) calls filled todo delivers fits enough =
      elim (Bool-cases (leb len (length filled))) [
        | inl there ↦
            let size : length filled ≡ len =
              (let le = leb→le len (length filled) there in omega arith) in
            rw (there, read_full) (ap (λ bs. some (done bs)) (full filled todo size))
        | inr missing ↦ elim (next_answer filled todo calls delivers (ground arith)) [
          | inr (early, interrupted) ↦
              rw (missing, read_full)
                (rw (interrupted, read_full)
                  (read_full_reads rounds (suc calls) filled todo delivers fits (omega arith)))
          | inl (n, answer, within) ↦
              advance rounds calls filled todo n within answer
                (λ filled' todo' same longer fits'. rw (sym same) (
                  read_full_reads rounds (suc calls) filled' todo' (rw same delivers) fits'
                    (omega arith)))
                missing
        ]
      ]

from_le_bytes_word : (w : ℕ) → w < 2 ^ 32 → from_le_bytes (word_bytes w) ≡ w
from_le_bytes_word w h = omega arith

as_i32-bits_of_i32 :
    (z : ℤ) → IsI32 z → (bits_of (2 ^ 32) z < 2 ^ 32) × (as_i32 (bits_of (2 ^ 32) z) ≡ z)
as_i32-bits_of_i32 (pos n) h = (omega arith, ground arith)
as_i32-bits_of_i32 (negsuc n) h = (omega arith, ground arith)

-- The four bytes of an i32 are read back as it.
from_le_bytes-to_le_bytes : (z : ℤ) → IsI32 z → as_i32 (from_le_bytes (to_le_bytes z)) ≡ z
from_le_bytes-to_le_bytes z h =
    let (small, same) = as_i32-bits_of_i32 z h in
    rw (from_le_bytes_word (bits_of (2 ^ 32) z) small) same

module _ (from_raw : ℤ → Errno) (pipe : Pipe) (limit : ℕ) where
  -- The child's errno, where all four bytes come.
  pub read_exec_errno_whole :
      (z : ℤ)
      → IsI32 z
      → Delivers pipe limit 4 (to_le_bytes z)
      → read_exec_errno pipe from_raw (limit + 4) ≡ some (exec (from_raw z))
  unfolding read_exec_errno
  read_exec_errno_whole z i32 delivers =
      let all =
        read_full_reads pipe limit 4 (limit + 4) 0 [] (to_le_bytes z) delivers (omega arith)
          (omega arith) in
      rw (all, read_exec_errno)
        (ap (λ n. some (exec (from_raw n))) (from_le_bytes-to_le_bytes z i32))

  -- Fewer bytes are no errno.
  pub read_exec_errno_short :
      (bytes : List ℕ)
      → length bytes < 4
      → Delivers pipe limit 4 bytes
      → read_exec_errno pipe from_raw (limit + 4) ≡ some tracee_gone
  unfolding read_exec_errno
  read_exec_errno_short bytes short delivers =
      let all =
        read_full_reads pipe limit 4 (limit + 4) 0 [] bytes delivers (omega arith) (omega arith) in
      let size = length-take 4 bytes in
      let few : (length (take 4 bytes) == 4) ≡ false = ground arith in
      rw (all, read_exec_errno) (rw few refl)
