-- ===== src/Syscalls/Utf8.antt =====
-- `String::from_utf8` and `String::from_utf8_lossy` of the standard library: each maximal part that
-- is no character is replaced by U+FFFD.
use loi.Prelude.{
  ℕ, zero, suc, ◌≡◌, refl, Bool, true, false, ◌&&◌, [], ◌∷◌, ◌++◌, leb, ltb, if◌then◌else◌, arith,
  append_assoc, Bool-cases, inl, inr, ◌⊎◌,
}
use loi.Prelude.Text.{Text}

-- Where a decoder stands: between characters, or inside one, with the bounds of the next byte, how
-- many follow that one, and the bytes so far.
pub data Pending : Type 0 where
  between : Pending
  inside : ℕ → ℕ → ℕ → Text → Pending

abbrev pub in_range : ℕ → ℕ → ℕ → Bool
in_range lo hi b = leb lo b && leb b hi

abbrev pub replacement : Text
replacement = 0xef ∷ 0xbf ∷ 0xbd ∷ []

-- How a byte begins a character: whole, or with more bytes to come, or not at all.
pub data Start : Type 0 where
  whole : Start
  more : ℕ → ℕ → ℕ → Start
  bad : Start

unfoldable pub start : ℕ → Start
start b =
    if ltb b 0x80
    then whole
    else if in_range 0xc2 0xdf b
    then more 0x80 0xbf 0
    else if in_range 0xe0 0xe0 b
    then more 0xa0 0xbf 1
    else if in_range 0xe1 0xec b
    then more 0x80 0xbf 1
    else if in_range 0xed 0xed b
    then more 0x80 0x9f 1
    else if in_range 0xee 0xef b
    then more 0x80 0xbf 1
    else if in_range 0xf0 0xf0 b
    then more 0x90 0xbf 2
    else if in_range 0xf1 0xf3 b
    then more 0x80 0xbf 2
    else if in_range 0xf4 0xf4 b
    then more 0x80 0x8f 2
    else bad

-- What one byte emits, and where the decoder then stands.
abbrev begin : ℕ → Start → Text × Pending
begin b whole = (b ∷ [], between)
begin b (more lo hi n) = ([], inside lo hi n (b ∷ []))
begin b bad = (replacement, between)

abbrev advance : ℕ → Text → Text × Pending
advance zero seen = (seen, between)
advance (suc n) seen = ([], inside 0x80 0xbf n seen)

-- A byte that does not go on ends the part before it, and is looked at again.
step : Pending → ℕ → Text × Pending
step between b = begin b (start b)
step (inside lo hi n seen) b =
    if in_range lo hi b
    then advance n (seen ++ b ∷ [])
    else (replacement ++ (begin b (start b)).0, (begin b (start b)).1)

flush : Pending → Text
flush between = []
flush (inside lo hi n seen) = replacement

unfoldable pub lossy_from : Pending → Text → Text
unfolding flush step
lossy_from p [] = flush p
lossy_from p (b ∷ bs) = (step p b).0 ++ lossy_from (step p b).1 bs

-- `String::from_utf8_lossy(bytes)`
unfoldable pub from_utf8_lossy : Text → Text
unfolding lossy_from
from_utf8_lossy bs = lossy_from between bs

abbrev is_start : Start → Bool
is_start bad = false
is_start _ = true

accepts : Pending → ℕ → Bool
accepts between b = is_start (start b)
accepts (inside lo hi n seen) b = in_range lo hi b

is_between : Pending → Bool
is_between between = true
is_between (inside lo hi n seen) = false

unfoldable pub valid_from : Pending → Text → Bool
unfolding accepts is_between step
valid_from p [] = is_between p
valid_from p (b ∷ bs) = accepts p b && valid_from (step p b).1 bs

-- Whether `String::from_utf8(bytes)` is `Ok`.
unfoldable pub is_utf8 : Text → Bool
unfolding valid_from
is_utf8 bs = valid_from between bs

-- `match String::from_utf8(bytes) { Ok(s) => s, Err(e) => from_utf8_lossy(&e.into_bytes()) }`
unfoldable pub decode_utf8 : Text → Text
decode_utf8 bs = if is_utf8 bs then bs else from_utf8_lossy bs

Start-cases :
    (s : Start) → (s ≡ whole) ⊎ (s ≡ bad) ⊎ ((lo : ℕ) × (hi : ℕ) × (n : ℕ) × (s ≡ more lo hi n))
Start-cases whole = inl refl
Start-cases bad = inr (inl refl)
Start-cases (more lo hi n) = inr (inr (lo, hi, n, refl))

abbrev seen_of : Pending → Text
seen_of between = []
seen_of (inside lo hi n seen) = seen

lossy_of_valid :
    (p : Pending) (bs : Text) → valid_from p bs ≡ true → lossy_from p bs ≡ seen_of p ++ bs
unfolding valid_from lossy_from
lossy_of_valid between [] h = refl
lossy_of_valid (inside lo hi n seen) [] h = cc
lossy_of_valid between (b ∷ bs) h = elim (Start-cases (start b)) [
  | inl w ↦ ground (arith, lossy_of_valid between bs)
  | inr (inl w) ↦ absurd (ground arith)
  | inr (inr (lo, hi, n, w)) ↦ ground (arith, lossy_of_valid (inside lo hi n (b ∷ [])) bs)
]
lossy_of_valid (inside lo hi zero seen) (b ∷ bs) h =
    ground (arith, lossy_of_valid between bs, append_assoc seen (b ∷ []) bs)
lossy_of_valid (inside lo hi (suc n) seen) (b ∷ bs) h =
    ground (
      arith,
      lossy_of_valid (inside 0x80 0xbf n (seen ++ b ∷ [])) bs,
      append_assoc seen (b ∷ []) bs,
    )

-- What was seen of a character is valid so far.
abbrev IsCoherent : Pending → Type 0
IsCoherent p = (rest : Text) → valid_from between (seen_of p ++ rest) ≡ valid_from p rest

valid_replacement :
    (rest : Text) → valid_from between (replacement ++ rest) ≡ valid_from between rest
unfolding valid_from start
valid_replacement rest = refl

valid_begin :
    (b : ℕ) (bs : Text)
    → ((p : Pending) → IsCoherent p → valid_from between (lossy_from p bs) ≡ true)
    → valid_from between ((begin b (start b)).0 ++ lossy_from (begin b (start b)).1 bs) ≡ true
unfolding valid_from
valid_begin b bs ih = elim (Start-cases (start b)) [
  | inl w ↦ ground (arith, ih between (λ rest. refl))
  | inr (inl w) ↦
      ground (arith, valid_replacement (lossy_from between bs), ih between (λ rest. refl))
  | inr (inr (lo, hi, n, w)) ↦ ground (arith, ih (inside lo hi n (b ∷ [])) (λ rest. ground arith))
]

valid_lossy : (p : Pending) (bs : Text) → IsCoherent p → valid_from between (lossy_from p bs) ≡ true
unfolding valid_from lossy_from
valid_lossy between [] h = refl
valid_lossy (inside lo hi n seen) [] h = valid_replacement []
valid_lossy between (b ∷ bs) h = valid_begin b bs (λ q hq. valid_lossy q bs hq)
valid_lossy (inside lo hi zero seen) (b ∷ bs) h = elim (Bool-cases (in_range lo hi b)) [
  | inl goes_on ↦ ground (
    arith,
    append_assoc seen (b ∷ []) (lossy_from between bs),
    h (b ∷ lossy_from between bs),
    valid_lossy between bs (λ rest. refl),
  )
  | inr ends ↦ ground (
    arith,
    valid_replacement ((begin b (start b)).0 ++ lossy_from (begin b (start b)).1 bs),
    valid_begin b bs (λ q hq. valid_lossy q bs hq),
  )
]
valid_lossy (inside lo hi (suc n) seen) (b ∷ bs) h = elim (Bool-cases (in_range lo hi b)) [
  | inl goes_on ↦ ground (
    arith,
    valid_lossy (inside 0x80 0xbf n (seen ++ b ∷ [])) bs
        (λ rest. ground (arith, append_assoc seen (b ∷ []) rest, h (b ∷ rest))),
  )
  | inr ends ↦ ground (
    arith,
    valid_replacement ((begin b (start b)).0 ++ lossy_from (begin b (start b)).1 bs),
    valid_begin b bs (λ q hq. valid_lossy q bs hq),
  )
]

-- Bytes that are valid UTF-8 are decoded to themselves.
pub decode_utf8_valid : (bs : Text) → is_utf8 bs ≡ true → decode_utf8 bs ≡ bs
unfolding decode_utf8
decode_utf8_valid bs valid = rw valid

-- All bytes are decoded to valid UTF-8, and to what the lossy decoding alone makes of them: the test
-- before it changes no result.
pub decode_utf8_lem :
    (bs : Text) → (is_utf8 (decode_utf8 bs) ≡ true) × (decode_utf8 bs ≡ from_utf8_lossy bs)
unfolding decode_utf8 is_utf8 from_utf8_lossy
decode_utf8_lem bs =
    let sound = valid_lossy between bs (λ rest. refl) in
    let same = lossy_of_valid between bs in (ground arith, ground (arith, same))
