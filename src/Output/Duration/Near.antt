-- ===== src/Output/Duration/Near.antt =====
-- How near `fmt_duration` (crates/loi-output/src/format_common.rs) comes to the duration.
use loi.Prelude.{
  ◌++◌, if◌then◌else◌, ℕ, suc, ◌+◌, ◌*◌, ◌/◌, ◌%◌, ◌^◌, ◌≤◌, ◌<◌, ◌≡◌, refl, sym, ◌∙◌, inl, inr,
  false, ltb, leb, Bool-cases, arith,
}
use native.Mathlib.Nat.{
  suc-mul, mul-one, one-mul, mul-add, mul_left_comm, mul_assoc, mul_comm, mul-le-mul_left,
  mul-le-mul_right, le_of_mul-le-mul_left, lt_of_mul-lt-mul_left,
}
use loi.Prelude.Text.{Text, text}
use loi.Prelude.Print.{decimal}
use loi.Output.Duration.{
  one_decimal, fmt_duration, round_half_even, lowered, nearest_double, divided,
}
use loi.Output.Duration.Doubles.{round_half_even-near, raised-reaches}

-- A ratio below 2^53 is not halved.
lowered_at_once :
    (rounds num den scale : ℕ)
    → num < 2 ^ 53 * den
    → lowered (suc rounds) num den scale ≡ (den, scale)
unfolding lowered
lowered_at_once rounds num den scale h =
    let small : leb (2 ^ 53 * den) num ≡ false = ground arith in rw (small, lowered) refl

-- The double nearest to a ratio from 1 to 2^53: a whole number over a power of two.
pub nearest_double-near :
    (num den : ℕ)
    → den ≤ num
    → num < 2 ^ 53 * den
    → (q : ℕ) × (u : ℕ) × (nearest_double num den ≡ (q, u))
      × (q ≡ round_half_even (num * u) den)
      × (0 < u)
      × (2 ^ 52 * den ≤ num * u)
unfolding nearest_double
nearest_double-near num den whole small =
    let (u, up, pos_u, below, reaches) = raised-reaches 52 num den 1 in
    let enough = reaches (omega (arith)) in
    let fits : num * u < 2 ^ 53 * den = elim below [
      | inl once ↦ rw once (omega (arith, mul-one num))
      | inr less ↦ less
    ] in
    (
      round_half_even (num * u) den,
      u,
      rw (up, nearest_double)
          (rw (lowered_at_once 127 (num * u) den 1 fits) (simp (mul-one, one-mul) refl)),
      refl,
      pos_u,
      enough,
    )

-- A whole number below 2^53 is a double.
whole-near : (n : ℕ) → 0 < n → n < 2 ^ 53 → (u : ℕ) × (nearest_double n 1 ≡ (n * u, u)) × (0 < u)
whole-near n some small =
    let (q, u, same, rounded, pos_u, enough) =
      nearest_double-near n 1 (omega arith) (omega arith) in
    let near = round_half_even-near (n * u) 1 (omega arith) in
    let exact : q ≡ n * u = omega (arith, rounded, mul-one (round_half_even (n * u) 1)) in
    (u, same ∙ rw exact refl, pos_u)

with_factor :
    (k n d : ℕ)
    → 0 < k
    → d ≤ n
    → n < 2 ^ 53
    → 0 < d
    → (k * d ≤ n * k) × (n * k < 2 ^ 53 * (k * d)) × (0 < k * d)
with_factor k n d pos_k big small some =
    let most = mul-le-mul_left k big in
    let least = mul-le-mul_left k some in
    let bound = mul-le-mul_left k small in
    (
      omega (arith, mul_comm n k),
      omega (arith, mul_comm n k, mul-add k n 1, mul-one k),
      omega (arith, mul-one k),
    )

-- A common factor `k` of a ratio and its rounding goes away.
module _ (k n d u q : ℕ) (pos_k : 0 < k) where
  shown_left : q * (k * d) ≡ k * (q * d)
  shown_left = mul_left_comm q k d

  shown_right : n * k * u ≡ k * (n * u)
  shown_right = mul_assoc n k u ∙ mul_left_comm n k u

  without_factor_below : 2 * (q * (k * d)) ≤ 2 * (n * k * u) + k * d → 2 * (q * d) ≤ 2 * (n * u) + d
  without_factor_below h =
      let whole : k * (2 * (q * d)) ≤ k * (2 * (n * u) + d) = omega (
        arith,
        shown_left,
        shown_right,
        mul_left_comm k 2 (q * d),
        mul-add k (2 * (n * u)) d,
        mul_left_comm k 2 (n * u),
      ) in
      le_of_mul-le-mul_left whole pos_k

  without_factor_above : 2 * (n * k * u) ≤ 2 * (q * (k * d)) + k * d → 2 * (n * u) ≤ 2 * (q * d) + d
  without_factor_above h =
      let whole : k * (2 * (n * u)) ≤ k * (2 * (q * d) + d) = omega (
        arith,
        shown_left,
        shown_right,
        mul_left_comm k 2 (q * d),
        mul-add k (2 * (q * d)) d,
        mul_left_comm k 2 (n * u),
      ) in
      le_of_mul-le-mul_left whole pos_k

  without_factor_unit : 2 ^ 52 * (k * d) ≤ n * k * u → 2 ^ 52 * d ≤ n * u
  without_factor_unit h =
      let whole : k * (2 ^ 52 * d) ≤ k * (n * u) =
        omega (arith, shown_right, mul_left_comm k (2 ^ 52) d) in
      le_of_mul-le-mul_left whole pos_k

-- The double of `n / d`: over a power of two it is half a unit away from the ratio at most, and the
-- unit is small.
pub divided-near :
    (n d : ℕ)
    → 0 < d
    → d ≤ n
    → n < 2 ^ 53
    → (q : ℕ) × (u : ℕ) × (divided n d ≡ (q, u))
      × (0 < u)
      × (2 * (q * d) ≤ 2 * (n * u) + d)
      × (2 * (n * u) ≤ 2 * (q * d) + d)
      × (2 ^ 52 * d ≤ n * u)
unfolding divided
divided-near n d some big small =
    let (k, first, pos_k) = whole-near n (omega arith) small in
    let (le, lt, positive) = with_factor k n d pos_k big small some in
    let (q, u, same, rounded, pos_u, enough) = nearest_double-near (n * k) (k * d) le lt in
    let (below, above) = round_half_even-near (n * k * u) (k * d) positive in
    (
      q,
      u,
      rw (first, divided) same,
      pos_u,
      without_factor_below k n d u q pos_k (rw (sym rounded) at below),
      without_factor_above k n d u q pos_k (rw (sym rounded) at above),
      without_factor_unit k n d u q pos_k enough,
    )

-- The tenths of a unit of `20 * h` are half a tenth away at most: the error of the double is less than
-- what it would take to pass it.
tenths-near :
    (n h q u : ℕ)
    → 0 < u
    → n < 2 ^ 53
    → 2 * (q * (20 * h)) ≤ 2 * (n * u) + 20 * h
    → 2 * (n * u) ≤ 2 * (q * (20 * h)) + 20 * h
    → 2 ^ 52 * (20 * h) ≤ n * u
    → let t = round_half_even (10 * q) u in (2 * (t * h) ≤ n + h) × (n ≤ 2 * (t * h) + h)
tenths-near n h q u pos_u small below above unit =
    let t = round_half_even (10 * q) u in
    let (t_below, t_above) = round_half_even-near (10 * q) u pos_u in
    let fine : 10 * h < u = let most = mul-le-mul_right u small in omega (arith, suc-mul n u) in
    let t_below_h = mul-le-mul_right h t_below in
    let t_above_h = mul-le-mul_right h t_above in
    let upper : u * (2 * (t * h)) < u * (n + h + 1) = grind arith in
    let lower : u * n < u * (2 * (t * h) + h + 1) = grind arith in
    let up = lt_of_mul-lt-mul_left u upper in
    let low = lt_of_mul-lt-mul_left u lower in (omega arith, omega arith)

-- Tenths of a unit.
abbrev pub tenths_text : ℕ → Text → Text
tenths_text t unit = (decimal (t / 10) ++ (text "." ++ decimal (t % 10))) ++ unit

-- The text is of tenths of a unit, so many that they are half a tenth from the duration at most. Half a
-- tenth is `h` nanoseconds.
abbrev pub IsNear : ℕ → ℕ → Text → Text → Type 0
IsNear n h unit shown =
    (t : ℕ) × (shown ≡ tenths_text t unit) × (2 * (t * h) ≤ n + h) × (n ≤ 2 * (t * h) + h)

one_decimal-IsNear :
    (n h : ℕ) (unit : Text)
    → 0 < h
    → 20 * h ≤ n
    → n < 2 ^ 53
    → IsNear n h unit (one_decimal (divided n (20 * h)) ++ unit)
unfolding one_decimal
one_decimal-IsNear n h unit some big small =
    let (q, u, same, pos_u, below, above, fine) = divided-near n (20 * h) (omega arith) big small in
    let (low, high) = tenths-near n h q u pos_u small below above fine in
    (round_half_even (10 * q) u, rw same refl, low, high)

-- From a millisecond on, and up to 2^53 nanoseconds, which are 104 days, a duration is shown in tenths of
-- a millisecond, or from a second on of a second, and what is shown is half a tenth from the duration at
-- most: the two roundings of the doubles do not add to the error of the last digit.
pub fmt_duration-IsNear :
    (n : ℕ)
    → 1000000 ≤ n
    → n < 2 ^ 53
    → if ltb n 1000000000
      then IsNear n 50000 (text "ms") (fmt_duration n)
      else IsNear n 50000000 (text "s") (fmt_duration n)
unfolding fmt_duration
fmt_duration-IsNear n big small =
    let no_ns : ltb n 1000 ≡ false = ground arith in
    let no_us : ltb n 1000000 ≡ false = ground arith in
    elim (Bool-cases (ltb n 1000000000)) [
      | inl ms ↦ rw ms (
          rw (no_ns, fmt_duration)
            (rw no_us (one_decimal-IsNear n 50000 (text "ms") (omega arith) big small)))
      | inr s ↦
          let second : 1000000000 ≤ n = ground arith in
          rw s (
            rw (no_ns, fmt_duration)
              (rw no_us (one_decimal-IsNear n 50000000 (text "s") (omega arith) second small)))
    ]
