-- ===== src/Syscalls/Decoders/Signatures/Chosen.antt =====
-- The names that the flag decoders of crates/loi-syscalls give are some of the documented ones, in
-- their order.
use loi.Prelude.{
  inl, inr, ℕ, ◌==◌, ◌&&◌, List, [], ◌∷◌, ◌++◌, Bool, true, false, if◌then◌else◌, All,
}
use loi.Prelude.Tests.{Bool-cases}
use Prim.Native.Nat.{bit_and}
use loi.Prelude.Text.{Text}
use loi.Syscalls.Libc.{Libc}
use loi.Syscalls.Decoder.{FlagTable, is_set, set_names, decode_flags, decode_prot, prot_table}
use loi.Syscalls.Decoders.Files.{
  access_mode_name, o_accmode, opt_list, tmpfile_set, o_directory_mask, push_open_flags,
  decode_open_flags, open_flags_table,
}
use loi.Syscalls.Decoders.Signatures.{
  Picks, none_left, picked, skipped, access_names, open_names, prot_names,
}

module _ {ℓ} {A : Type ℓ} where
  pub Picks-nothing : (ys : List A) → Picks [] ys
  Picks-nothing [] = none_left
  Picks-nothing (y ∷ ys) = skipped y (Picks-nothing ys)

  pub Picks-append :
      {xs ys xs' ys' : List A} → Picks xs ys → Picks xs' ys' → Picks (xs ++ xs') (ys ++ ys')
  Picks-append none_left more = more
  Picks-append (picked x rest) more = picked x (Picks-append rest more)
  Picks-append (skipped y rest) more = skipped y (Picks-append rest more)

  -- What holds of all that are listed holds of those picked.
  pub All-Picks {κ} : (P : A → Type κ) {xs ys : List A} → Picks xs ys → All P ys → All P xs
  All-Picks P none_left h = tt
  All-Picks P (picked x rest) h = (h.0, All-Picks P rest h.1)
  All-Picks P (skipped y rest) h = All-Picks P rest h.1

  -- One more that a test decides on.
  Picks-if :
      (b : Bool) (x : A) {xs ys : List A} → Picks xs ys → Picks (if b then x ∷ xs else xs) (x ∷ ys)
  Picks-if true x rest = picked x rest
  Picks-if false x rest = skipped x rest

-- The names of a table.
abbrev pub listed : FlagTable → List Text
listed [] = []
listed ((mask, name) ∷ table) = name ∷ listed table

set_names-Picks : (raw : ℕ) (table : FlagTable) → Picks (set_names raw table) (listed table)
unfolding set_names
set_names-Picks raw [] = none_left
set_names-Picks raw ((mask, name) ∷ table) =
    Picks-if (is_set raw mask) name (set_names-Picks raw table)

pub decode_flags-Picks :
    (raw : ℕ) (table : FlagTable) → Picks (decode_flags raw table) (listed table)
unfolding decode_flags
decode_flags-Picks raw table = elim (Bool-cases (raw == 0)) [
  | inl zero_value ↦ rw zero_value (Picks-nothing (listed table))
  | inr some_bits ↦ rw some_bits (set_names-Picks raw table)
]

pub decode_prot-Picks : (l : Libc) (raw : ℕ) → Picks (decode_prot l raw) prot_names
unfolding decode_prot
decode_prot-Picks l raw = elim (Bool-cases (raw == 0)) [
  | inl zero_value ↦ rw zero_value (picked _ (Picks-nothing _))
  | inr some_bits ↦ rw some_bits (skipped _ (set_names-Picks raw (prot_table l)))
]

push_open_flags-Picks :
    (l : Libc) (raw : ℕ) (table : FlagTable) → Picks (push_open_flags l raw table) (listed table)
unfolding push_open_flags
push_open_flags-Picks l raw [] = none_left
push_open_flags-Picks l raw ((mask, name) ∷ table) =
    let rest = push_open_flags-Picks l raw table in
    elim (Bool-cases (mask == 0)) [
      | inl empty ↦ rw empty (skipped name rest)
      | inr bits ↦ rw bits (elim (Bool-cases (mask == o_directory_mask l && tmpfile_set l raw)) [
        | inl told ↦ rw told (skipped name rest)
        | inr other ↦ rw other (Picks-if (bit_and raw mask == mask) name rest)
      ])
    ]

access_mode_name-Picks : (raw : ℕ) → Picks (opt_list (access_mode_name raw)) access_names
unfolding access_mode_name
access_mode_name-Picks raw =
    let m = bit_and raw o_accmode in
    elim (Bool-cases (m == 0)) [
      | inl ro ↦ rw ro (picked _ (Picks-nothing _))
      | inr h ↦ rw h (elim (Bool-cases (m == 1)) [
        | inl wo ↦ rw wo (skipped _ (picked _ (Picks-nothing _)))
        | inr h' ↦ rw h' (elim (Bool-cases (m == 2)) [
          | inl both ↦ rw both (skipped _ (skipped _ (picked _ none_left)))
          | inr odd ↦ rw odd (Picks-nothing access_names)
        ])
      ])
    ]

pub decode_open_flags-Picks :
    (l : Libc) (raw : ℕ) → Picks (decode_open_flags l raw) (access_names ++ open_names)
unfolding decode_open_flags open_flags_table
decode_open_flags-Picks l raw =
    Picks-append (access_mode_name-Picks raw) (push_open_flags-Picks l raw (open_flags_table l))
