-- ===== src/Output/Duration/Doubles.antt =====
-- How far the arithmetic of doubles in `fmt_duration` goes from the exact ratios.
use loi.Prelude.{
  ◌==◌, sym, ap, ◌∙◌, ℕ, zero, suc, ◌+◌, ◌*◌, ◌/◌, ◌%◌, ◌^◌, ◌≤◌, ◌<◌, ◌≡◌, refl, inl, inr, ◌⊎◌,
  ltb, Bool-cases, arith,
}
use native.Mathlib.Nat.{
  mod-lt, div-add-mod', pow-suc, pow-zero, mul-one, suc-mul, mul_assoc, mul_left_comm,
}
use loi.Output.Duration.{round_half_even, raised}

doubled : (n u : ℕ) → n * (2 * u) ≡ 2 * n * u
doubled n u = mul_left_comm n 2 u ∙ sym (mul_assoc 2 n u)

-- Rounding goes down where the rest is half a unit at most, and up where it is half a unit at least.
round_half_even-cases :
    (num den : ℕ)
    → ((round_half_even num den ≡ num / den) × (2 * (num % den) ≤ den))
      ⊎ ((round_half_even num den ≡ suc (num / den)) × (den ≤ 2 * (num % den)))
unfolding round_half_even
round_half_even-cases num den = elim (Bool-cases (ltb (2 * (num % den)) den)) [
  | inl less ↦ inl (rw less refl, ground arith)
  | inr not_less ↦ elim (Bool-cases (ltb den (2 * (num % den)))) [
    | inl greater ↦ inr (rw not_less (rw greater refl), ground arith)
    | inr tie ↦ elim (Bool-cases (num / den % 2 == 0)) [
      | inl even ↦ inl (rw not_less (rw tie (rw even refl)), ground arith)
      | inr odd ↦ inr (rw not_less (rw tie (rw odd refl)), ground arith)
    ]
  ]
]

-- The rounded ratio is half a unit away at most.
pub round_half_even-near :
    (num den : ℕ)
    → 0 < den
    → (2 * (round_half_even num den * den) ≤ 2 * num + den)
      × (2 * num ≤ 2 * (round_half_even num den * den) + den)
round_half_even-near num den some =
    let exact = div-add-mod' num den in
    let rest_below = mod-lt num some in
    elim (round_half_even-cases num den) [
      | inl (down, rest) ↦ rw down (omega arith, omega arith)
      | inr (up, rest) ↦ let one_more = suc-mul (num / den) den in rw up (omega arith, omega arith)
    ]

-- Doubling keeps the ratio, stops below 2^53, and goes on to 2^52 if the rounds allow it.
pub raised-reaches :
    (rounds num den scale : ℕ)
    → (u : ℕ) × (raised rounds num den scale ≡ (num * u, scale * u))
      × (0 < u)
      × ((u ≡ 1) ⊎ (num * u < 2 ^ 53 * den))
      × (2 ^ 52 * den ≤ num * 2 ^ rounds → 2 ^ 52 * den ≤ num * u)
unfolding raised
raised-reaches zero num den scale =
    (1, simp mul-one refl, omega arith, inl refl, λ h. rw pow-zero at h)
raised-reaches (suc rounds) num den scale = elim (Bool-cases (ltb num (2 ^ 52 * den))) [
  | inr enough ↦ (
    1,
    rw (enough, raised) (simp mul-one refl),
    omega arith,
    inl refl,
    λ h. let reached : 2 ^ 52 * den ≤ num = ground arith in omega (arith, mul-one num),
  )
  | inl more ↦
      let (u, same, pos_u, below, reaches) = raised-reaches rounds (2 * num) den (2 * scale) in
      let less : num < 2 ^ 52 * den = ground arith in
      (
        2 * u,
        rw (more, raised) (rw (doubled num u, doubled scale u) same),
        omega arith,
        inr (elim below [
          | inl once ↦ rw once (omega (arith, mul-one num))
          | inr small ↦ omega (arith, doubled num u)
        ]),
        λ h.
            let later : 2 ^ 52 * den ≤ 2 * num * 2 ^ rounds =
              omega (arith, doubled num (2 ^ rounds), ap (λ (p : ℕ). num * p) (pow-suc 2 rounds)) in
            let most = reaches later in omega (arith, doubled num u),
      )
]
