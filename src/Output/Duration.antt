-- ===== src/Output/Duration.antt =====
-- `fmt_duration` (crates/loi-output/src/format_common.rs), with the `f64` of its larger units: a
-- double is a ratio of naturals, and every operation gives the nearest one.
pub mod Doubles
pub mod Near
use loi.Prelude.{ℕ, zero, suc, ◌*◌, ◌/◌, ◌%◌, ◌^◌, ◌++◌, true, false, leb, ltb, ◌==◌, if◌then◌else◌}
use loi.Prelude.Print.{decimal}
use loi.Prelude.Text.{Text, text}

-- The nearest natural to a ratio, the even one of two.
unfoldable pub round_half_even : ℕ → ℕ → ℕ
round_half_even num den =
    let q = num / den in
    let r = num % den in
    if ltb (2 * r) den
    then q
    else if ltb den (2 * r)
    then suc q
    else if q % 2 == 0
    then q
    else suc q

-- A ratio doubled until it is at least 2^52, and the power of two.
unfoldable pub raised : ℕ → ℕ → ℕ → ℕ → ℕ × ℕ
raised zero num den scale = (num, scale)
raised (suc rounds) num den scale = elim (ltb num (2 ^ 52 * den)) [
  | true ↦ raised rounds (2 * num) den (2 * scale)
  | false ↦ (num, scale)
]

-- A ratio halved until it is below 2^53, and the power of two.
unfoldable pub lowered : ℕ → ℕ → ℕ → ℕ → ℕ × ℕ
lowered zero num den scale = (den, scale)
lowered (suc rounds) num den scale = elim (leb (2 ^ 53 * den) num) [
  | true ↦ lowered rounds num (2 * den) (2 * scale)
  | false ↦ (den, scale)
]

-- The double that is nearest to a ratio of 1 at least and below 2^181.
unfoldable pub nearest_double : ℕ → ℕ → ℕ × ℕ
nearest_double num den =
    let (num', up) = raised 52 num den 1 in
    let (den', down) = lowered 128 num' den 1 in (round_half_even num' den' * down, up)

-- `n as f64 / d`, where `d` is a double itself.
unfoldable pub divided : ℕ → ℕ → ℕ × ℕ
divided n d = let (num, den) = nearest_double n 1 in nearest_double num (den * d)

-- `format!("{x:.1}")`
unfoldable pub one_decimal : ℕ × ℕ → Text
one_decimal (num, den) =
    let tenths = round_half_even (10 * num) den in
    decimal (tenths / 10) ++ (text "." ++ decimal (tenths % 10))

unfoldable pub fmt_duration : ℕ → Text
fmt_duration nanos =
    if ltb nanos 1000
    then decimal nanos ++ text "ns"
    else if ltb nanos 1000000
    then decimal (nanos / 1000) ++ text "us"
    else if ltb nanos 1000000000
    then one_decimal (divided nanos 1000000) ++ text "ms"
    else one_decimal (divided nanos 1000000000) ++ text "s"
