-- ===== src/Syscalls/Decoder/Flags.antt =====
-- Which names `decode_flags` gives.
use loi.Prelude.{
  ℕ, ◌^◌, ◌<◌, ◌==◌, ◌≡◌, refl, ◌∙◌, ◌&&◌, not, Bool, false, List, [], ◌∷◌, any, All, arith,
}
use loi.Prelude.Text.{Text, text_beq}
use loi.Prelude.Word.{zero-bit_and, has_bits, bit_and-eq-has_bits}
use loi.Syscalls.Decoder.{FlagTable, is_set, set_names, decode_flags}

-- Whether a name is among those listed.
abbrev pub names : Text → List Text → Bool
names n = any (text_beq n)

-- Whether the table has an entry of this name whose bits are all set.
abbrev pub has_set : Text → ℕ → FlagTable → Bool
has_set n raw = any (λ e. text_beq n e.1 && is_set raw e.0)

names-set_names :
    (n : Text) (raw : ℕ) (table : FlagTable) → names n (set_names raw table) ≡ has_set n raw table
unfolding set_names
names-set_names n raw [] = refl
names-set_names n raw ((mask, name) ∷ table) = ground (arith, names-set_names n raw table)

nothing_set : (n : Text) (table : FlagTable) → has_set n 0 table ≡ false
nothing_set n [] = refl
nothing_set n ((mask, name) ∷ table) = ground (arith, nothing_set n table, zero-bit_and mask)

-- The fast path for zero makes no difference.
pub names-decode_flags-eq-has_set :
    (n : Text) (raw : ℕ) (table : FlagTable)
    → names n (decode_flags raw table) ≡ has_set n raw table
unfolding decode_flags
names-decode_flags-eq-has_set n raw table =
    ground (arith, names-set_names n raw table, nothing_set n table)

-- Whether the table has an entry of this name with some bit, each of whose bits is set, bit by bit.
abbrev pub has_bits_of : Text → ℕ → FlagTable → Bool
has_bits_of n raw = any (λ e. text_beq n e.1 && (not (e.0 == 0) && has_bits 64 e.0 raw))

has_set-eq-has_bits_of :
    (n : Text) (raw : ℕ) (table : FlagTable)
    → All (λ e. e.0 < 2 ^ 64) table
    → has_set n raw table ≡ has_bits_of n raw table
has_set-eq-has_bits_of n raw [] fits = refl
has_set-eq-has_bits_of n raw ((mask, name) ∷ table) fits =
    let same = bit_and-eq-has_bits 64 mask raw fits.0 in
    rw (same, has_set-eq-has_bits_of n raw table fits.1) refl

-- Of a table of masks of 64 bits, a name is given exactly if the table has an entry of that name with
-- some bit set, each of whose bits is set in the value, compared bit by bit; the fast path for zero
-- makes no difference.
pub names-decode_flags :
    (n : Text) (raw : ℕ) (table : FlagTable)
    → All (λ e. e.0 < 2 ^ 64) table
    → names n (decode_flags raw table) ≡ has_bits_of n raw table
names-decode_flags n raw table fits =
    names-decode_flags-eq-has_set n raw table ∙ has_set-eq-has_bits_of n raw table fits
