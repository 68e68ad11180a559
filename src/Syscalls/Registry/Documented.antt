-- ===== src/Syscalls/Registry/Documented.antt =====
-- What the default registry decodes, against the signatures of the calls.
use loi.Syscalls.Decoders.Stat
use loi.Prelude.{
  Bool, true, all, ◌⊎◌, sym, ◌∙◌, ◌≡◌, refl, inl, inr, ℕ, Option, none, some, List, [], ◌∷◌,
  if◌then◌else◌, arith,
}
use loi.Prelude.Tests.{Eq, Bool-cases, Option-cases}
use loi.Prelude.Result.{ok, ok_injective}
use mathlib.Core.Option.{some_inj}
use loi.Prelude.Word.{Profile}
use loi.Syscalls.Decoder.{Decoder}
use loi.Syscalls.Decoders.Processes.{Arch, x86_64, aarch64}
use loi.Syscalls.Decoders.Signatures.{
  Signature, Conforms, of_openat, of_read_write, of_close, of_stat, of_fstat, of_statx, of_mmap,
  of_mprotect, of_execve, of_clone, of_wait4,
}
use loi.Syscalls.Decoders.Signatures.Conforms.{
  openat-Conforms, read-Conforms, write-Conforms, close-Conforms, stat-Conforms, fstat-Conforms,
  statx-Conforms, mmap-Conforms, mprotect-Conforms, execve-Conforms, clone-Conforms, wait4-Conforms,
}
use loi.Syscalls.Registry.{
  Table, Registry, sysno_from_nr, decoder, default_rows, with_default_decoders,
}
use loi.Syscalls.Registry.Lookup.{IsTable, last_row, decoder-with_default_decoders}

module _ {Sysno : Type 0} ⦃e : Eq Sysno⦄ (t : Table Sysno) where
  -- The calls with a signature, by the names of the table.
  abbrev pub manual : Arch → List (Sysno × Signature)
  manual arch =
      (t.openat, of_openat)
      ∷ (t.read, of_read_write)
      ∷ (t.write, of_read_write)
      ∷ (t.close, of_close)
      ∷ (t.fstat, of_fstat)
      ∷ (t.statx, of_statx)
      ∷ (t.mmap, of_mmap)
      ∷ (t.mprotect, of_mprotect)
      ∷ (t.execve, of_execve)
      ∷ (t.clone, of_clone arch)
      ∷ (t.wait4, of_wait4)
      ∷ elim arch [ x86_64 ↦ (t.stat, of_stat) ∷ [] | aarch64 ↦ [] ]

  -- The signature of a call.
  abbrev pub signature_of : Sysno → List (Sysno × Signature) → Option Signature
  signature_of s [] = none
  signature_of s ((k, sig) ∷ rows) = elim (signature_of s rows) [
    | some sig' ↦ some sig'
    | none ↦ if e.beq k s then some sig else none
  ]

  abbrev pub documented : Arch → ℕ → Option Signature
  documented arch nr = elim (sysno_from_nr t nr) [
    | some s ↦ signature_of s (manual arch)
    | none ↦ none
  ]

  -- What a test tells of all signatures of a list it tells of the one for a call.
  pub signature_of-passes :
      (test : Signature → Bool) (s : Sysno) (sigs : List (Sysno × Signature)) (sig : Signature)
      → all (λ row. test row.1) sigs ≡ true
      → signature_of s sigs ≡ some sig
      → test sig ≡ true
  signature_of-passes test s [] sig h listed = cc
  signature_of-passes test s ((k, first) ∷ sigs) sig h listed =
      elim (Option-cases (signature_of s sigs)) [
        | inr (later, found) ↦
            signature_of-passes test s sigs sig (ground arith)
              (found ∙ (rw (found, signature_of) at listed))
        | inl last ↦ elim (Bool-cases (e.beq k s)) [
          | inl this ↦
              let same = some_inj.0 (rw this at (rw (last, signature_of) at listed)) in
              rw (sym same) (ground arith)
          | inr other ↦ (let never = rw other at (rw (last, signature_of) at listed) in cc)
        ]
      ]

  -- Row by row, the decoders of the same calls conform to their signatures.
  abbrev RowsConform : List (Sysno × Decoder) → List (Sysno × Signature) → Type 0
  RowsConform [] [] = Unit
  RowsConform ((k, d) ∷ rows) ((k', sig) ∷ sigs) = (k ≡ k') × Conforms d sig × RowsConform rows sigs
  RowsConform _ _ = ⊥

  default_rows-RowsConform : (arch : Arch) → RowsConform (default_rows t arch) (manual arch)
  default_rows-RowsConform arch = (
    refl,
    openat-Conforms,
    (
      refl,
      read-Conforms,
      (
        refl,
        write-Conforms,
        (
          refl,
          close-Conforms,
          (
            refl,
            fstat-Conforms,
            (
              refl,
              statx-Conforms,
              (
                refl,
                mmap-Conforms,
                (
                  refl,
                  mprotect-Conforms,
                  (
                    refl,
                    execve-Conforms,
                    (refl, clone-Conforms arch, (refl, wait4-Conforms, last arch)),
                  ),
                ),
              ),
            ),
          ),
        ),
      ),
    ),
  )
    where
      last :
          (arch : Arch)
          → RowsConform
              (elim arch [ x86_64 ↦ (t.stat, Stat.stat) ∷ [] | aarch64 ↦ [] ])
              (elim arch [ x86_64 ↦ (t.stat, of_stat) ∷ [] | aarch64 ↦ [] ])
      last x86_64 = (refl, stat-Conforms, tt)
      last aarch64 = tt

  -- The last row for a call has the last signature for it.
  last_row-Conforms :
      (s : Sysno) (rows : List (Sysno × Decoder)) (sigs : List (Sysno × Signature))
      → RowsConform rows sigs
      → ((last_row t s rows ≡ none) × (signature_of s sigs ≡ none))
        ⊎ ((d : Decoder) × (sig : Signature) × (last_row t s rows ≡ some d)
            × (signature_of s sigs ≡ some sig)
            × Conforms d sig)
  last_row-Conforms s [] [] h = inl (refl, refl)
  last_row-Conforms s [] (row ∷ sigs) h = absurd h
  last_row-Conforms s (row ∷ rows) [] h = absurd h
  last_row-Conforms s ((k, d) ∷ rows) ((k', sig) ∷ sigs) (same, conforms, rest) =
      elim (last_row-Conforms s rows sigs rest) [
        | inr (d', sig', found, listed, fits) ↦
            inr (d', sig', rw (found, last_row) refl, rw (listed, signature_of) refl, fits)
        | inl (no_row, no_sig) ↦ elim (Bool-cases (e.beq k s)) [
          | inl this ↦ inr (
            d,
            sig,
            rw (no_row, last_row) (rw this refl),
            rw (no_sig, signature_of) (rw (sym same) (rw this refl)),
            conforms,
          )
          | inr other ↦ inl (
            rw (no_row, last_row) (rw other refl),
            rw (no_sig, signature_of) (rw (sym same) (rw other refl)),
          )
        ]
      ]

  module _ (table : IsTable t) (profile : Profile) (arch : Arch) (r : Registry t)
      (wired : with_default_decoders t profile arch ≡ ok r) where
    -- A decoder of the default registry conforms to the signature of the call that it is found for.
    pub decoder-Conforms :
        (nr : ℕ) (d : Decoder)
        → decoder t nr r ≡ some d
        → (sig : Signature) × (documented arch nr ≡ some sig) × Conforms d sig
    decoder-Conforms nr d found =
        let (r', wired', looked) = decoder-with_default_decoders t table profile arch nr in
        let same : r' ≡ r = ok_injective (sym wired' ∙ wired) in
        let row = sym (rw same at looked) ∙ found in
        elim (Option-cases (sysno_from_nr t nr)) [
          | inl unknown ↦ (let never = rw unknown at row in cc)
          | inr (s, known) ↦
              let listed = rw known at row in
              elim (last_row-Conforms s (default_rows t arch) (manual arch)
                (default_rows-RowsConform arch)) [
                  | inl (no_row, no_sig) ↦ (let never = sym no_row ∙ listed in cc)
                  | inr (d', sig, is_row, is_sig, conforms) ↦
                      let this = some_inj.0 (sym is_row ∙ listed) in
                      (sig, rw (known, documented) is_sig, rw (sym this) conforms)
                ]
        ]

    -- A number without a decoder is that of no call with a signature.
    pub undecoded-documented : (nr : ℕ) → decoder t nr r ≡ none → documented arch nr ≡ none
    undecoded-documented nr none_found =
        let (r', wired', looked) = decoder-with_default_decoders t table profile arch nr in
        let same : r' ≡ r = ok_injective (sym wired' ∙ wired) in
        let row = sym (rw same at looked) ∙ none_found in
        elim (Option-cases (sysno_from_nr t nr)) [
          | inl unknown ↦ rw (unknown, documented) refl
          | inr (s, known) ↦
              let unlisted = rw known at row in
              elim (last_row-Conforms s (default_rows t arch) (manual arch)
                (default_rows-RowsConform arch)) [
                  | inl (no_row, no_sig) ↦ rw (known, documented) no_sig
                  | inr (d', sig, is_row, is_sig, conforms) ↦
                      (let never = sym unlisted ∙ is_row in cc)
                ]
        ]
