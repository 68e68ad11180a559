-- ===== src/Syscalls/Decoders/OpenFlags.antt =====
-- Which names the flags of `openat` get.
use Prim.Native.Nat.{bit_and}
use loi.Prelude.{
  ℕ, ◌≡◌, refl, ◌&&◌, ◌||◌, not, Bool, true, false, [], ◌∷◌, any, ◌==◌, arith, any-append, ap, ◌∙◌,
  sym, Bool-cases, inl, inr,
}
use loi.Prelude.Text.{Text, text, text_beq}
use loi.Syscalls.Libc.{Libc}
use loi.Syscalls.Decoder.{FlagTable}
use loi.Syscalls.Decoder.Flags.{names}
use loi.Syscalls.Decoders.Files.{
  o_accmode, access_mode_name, o_directory_mask, o_tmpfile_mask, open_flags_table, push_open_flags,
  tmpfile_set, decode_open_flags, opt_list,
}

-- Whether the loop gives the name of an entry with this mask.
abbrev pub is_pushed : Libc → ℕ → ℕ → Bool
is_pushed l raw mask =
    not (mask == 0)
    && (not (mask == o_directory_mask l && tmpfile_set l raw) && bit_and raw mask == mask)

names-push_open_flags :
    (l : Libc) (n : Text) (raw : ℕ) (table : FlagTable)
    → names n (push_open_flags l raw table) ≡ any (λ e. text_beq n e.1 && is_pushed l raw e.0) table
unfolding push_open_flags
names-push_open_flags l n raw [] = refl
names-push_open_flags l n raw ((mask, name) ∷ table) =
    ground (arith, names-push_open_flags l n raw table)

module _ (l : Libc) (raw : ℕ) where
  names-decode_open_flags :
      (n : Text)
      → names n (decode_open_flags l raw) ≡ (
          names n (opt_list (access_mode_name raw))
          || any (λ e. text_beq n e.1 && is_pushed l raw e.0) (open_flags_table l))
  unfolding decode_open_flags
  names-decode_open_flags n =
      any-append (text_beq n) (opt_list (access_mode_name raw)) _
      ∙ ap (λ (b : Bool). names n (opt_list (access_mode_name raw)) || b)
          (names-push_open_flags l n raw (open_flags_table l))

  -- The access mode is none of the other names.
  access_apart :
      (n : Text)
      → text_beq n (text "O_RDONLY") ≡ false
      → text_beq n (text "O_WRONLY") ≡ false
      → text_beq n (text "O_RDWR") ≡ false
      → names n (opt_list (access_mode_name raw)) ≡ false
  unfolding access_mode_name
  access_apart n rdonly wronly rdwr = elim (Bool-cases (bit_and raw o_accmode == 0)) [
    | inl a ↦ rw (a, rdonly)
    | inr a ↦ elim (Bool-cases (bit_and raw o_accmode == 1)) [
      | inl b ↦ rw (a, b, wronly)
      | inr b ↦ elim (Bool-cases (bit_and raw o_accmode == 2)) [
        | inl c ↦ rw (a, b, c, rdwr)
        | inr c ↦ rw (a, b, c)
      ]
    ]
  ]

  or_false : (b : Bool) → (b || false) ≡ b
  or_false true = refl
  or_false false = refl

  named_by_table :
      (n : Text)
      → names n (opt_list (access_mode_name raw)) ≡ false
      → names n (decode_open_flags l raw)
        ≡ any (λ e. text_beq n e.1 && is_pushed l raw e.0) (open_flags_table l)
  named_by_table n apart = names-decode_open_flags n ∙ rw apart

  -- O_DIRECTORY is named exactly if its bits are set, and those of O_TMPFILE, which contain them,
  -- are not all set.
  pub names-o_directory : names (text "O_DIRECTORY") (decode_open_flags l raw) ≡ (
      not (o_directory_mask l == 0)
      && (not (tmpfile_set l raw) && bit_and raw (o_directory_mask l) == o_directory_mask l))
  unfolding open_flags_table
  names-o_directory =
      named_by_table (text "O_DIRECTORY") (access_apart (text "O_DIRECTORY") refl refl refl)
      ∙ or_false (is_pushed l raw (o_directory_mask l))
      ∙ ground arith

  -- O_TMPFILE and O_DIRECTORY are never both named.
  pub tmpfile_excludes_directory :
      names (text "O_TMPFILE") (decode_open_flags l raw) ≡ true
      → names (text "O_DIRECTORY") (decode_open_flags l raw) ≡ false
  unfolding open_flags_table
  tmpfile_excludes_directory h =
      let tmpfile : (is_pushed l raw (o_tmpfile_mask l) || false) ≡ true =
        sym (named_by_table (text "O_TMPFILE") (access_apart (text "O_TMPFILE") refl refl refl))
        ∙ h in
      names-o_directory ∙ ground arith
