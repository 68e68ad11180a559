-- ===== src/Syscalls/Registry/Lookup.antt =====
-- Which decoder a registry gives for a number.
use loi.Prelude.{
  inl, inr, ℕ, ◌≡◌, refl, Bool, false, Option, none, some, List, [], ◌∷◌, if◌then◌else◌, arith,
}
use loi.Prelude.Tests.{Eq, Option-cases}
use loi.Prelude.Int.{ℤ, pos, negsuc, is_neg}
use loi.Prelude.Map.{find, insert, find-insert}
use loi.Prelude.Result.{ok}
use loi.Prelude.Word.{Profile, dev, release}
use loi.Syscalls.Decoder.{Decoder}
use loi.Syscalls.Decoders.Processes.{Arch}
use loi.Syscalls.Registry.{
  Table, Registry, new, sysno_from_nr, register, decoder, sysno_id_u64, add, add_all, default_rows,
  with_default_decoders,
}

module _ {Sysno : Type 0} ⦃e : Eq Sysno⦄ (t : Table Sysno) where
  -- The two numbers are in the table and name the same call.
  abbrev pub same_row : ℕ → ℕ → Bool
  same_row nr j = elim (sysno_from_nr t nr) [
    | none ↦ false
    | some s ↦ elim (sysno_from_nr t j) [ none ↦ false | some s' ↦ e.beq s s' ]
  ]

  -- After a registration that returns, a lookup gives the decoder registered for the numbers of its
  -- row of the table, and what it gave before for all others.
  pub decoder-register :
      (profile : Profile) (nr j : ℕ) (d : Decoder) (r r' : Registry t)
      → register t profile nr d r ≡ ok r'
      → decoder t j r' ≡ (if same_row nr j then some d else decoder t j r)
  unfolding register decoder
  decoder-register dev nr j d r r' eq = elim (Option-cases (sysno_from_nr t nr)) [
    | inl h ↦ grind arith
    | inr (s, h) ↦ grind (arith, find-insert)
  ]
  decoder-register release nr j d r r' eq = elim (Option-cases (sysno_from_nr t nr)) [
    | inl h ↦ grind arith
    | inr (s, h) ↦ grind (arith, find-insert)
  ]

  -- What the table of the crate promises: the number of a call is not negative and names the call.
  pub record IsTable : Type 0 where
    pub id_not_neg : (s : Sysno) → is_neg (t.id s) ≡ false
    pub of_number_id : (s : Sysno) (n : ℕ) → t.id s ≡ pos n → t.of_number n ≡ some s

  -- The last row for a call.
  abbrev pub last_row : Sysno → List (Sysno × Decoder) → Option Decoder
  last_row s [] = none
  last_row s ((k, d) ∷ rows) = elim (last_row s rows) [
    | some d' ↦ some d'
    | none ↦ if e.beq k s then some d else none
  ]

  module _ (table : IsTable) (profile : Profile) where
    add-eq-insert :
        (s : Sysno) (d : Decoder) (r : Registry t) → add t profile (s, d) r ≡ ok (insert s d r)
    unfolding add register sysno_id_u64 sysno_from_nr
    add-eq-insert s d r = by_cases (t.id s) refl
      where
        by_cases : (i : ℤ) → t.id s ≡ i → add t profile (s, d) r ≡ ok (insert s d r)
        by_cases (pos n) h = grind (arith, table.of_number_id s n h)
        by_cases (negsuc n) h = let never = table.id_not_neg s in grind arith

    -- Registering rows one after another never fails, and a lookup gives the last row for a call.
    find-add_all :
        (rows : List (Sysno × Decoder)) (r : Registry t)
        → (r' : Registry t) × (add_all t profile rows r ≡ ok r')
          × ((s : Sysno) → find s r' ≡ elim (last_row s rows) [ some d ↦ some d | none ↦ find s r ])
    unfolding add_all
    find-add_all [] r = (r, refl, λ s. refl)
    find-add_all ((k, d) ∷ rows) r =
        let (r', added, found) = find-add_all rows (insert k d r) in
        (r', rw (add-eq-insert k d r) added, λ s. grind (arith, found s, find-insert))

    -- With a table that keeps the promises of the crate, building the registry never panics, and its
    -- decoder for a number is the last one that the constructor lists for the call of this number,
    -- and none where the number is not in the table or the constructor does not list its call.
    pub decoder-with_default_decoders :
        (arch : Arch) (nr : ℕ)
        → (r : Registry t) × (with_default_decoders t profile arch ≡ ok r)
          × (decoder t nr r ≡ elim (sysno_from_nr t nr) [
            | some s ↦ last_row s (default_rows t arch)
            | none ↦ none
          ])
    unfolding with_default_decoders decoder find
    decoder-with_default_decoders arch nr =
        let (r, added, found) = find-add_all (default_rows t arch) (new t) in
        (
          r,
          added,
          elim (Option-cases (sysno_from_nr t nr)) [
            | inl h ↦ grind arith
            | inr (s, h) ↦ grind (arith, found s, Option-cases (last_row s (default_rows t arch)))
          ],
        )
