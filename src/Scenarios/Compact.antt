-- ===== src/Scenarios/Compact.antt =====
-- A stand-in for serde_json: a value is its text, with the members of an object by their names. It
-- knows no escapes.
use loi.Prelude.{◌&&◌, ◌||◌, Bool, true, false, List, [], ◌∷◌, ◌++◌, map, ltb, ◌==◌, if◌then◌else◌}
use loi.Prelude.Int.{ℤ}
use loi.Prelude.Print.{decimal_ℤ}
use loi.Prelude.Text.{Text, text}
use loi.Output.{Json}

abbrev before : Text → Text → Bool
before [] t = true
before (a ∷ s) [] = false
before (a ∷ s) (b ∷ t) = ltb a b || a == b && before s t

-- A member among others in the order of the names.
abbrev placed : Text × Text → List (Text × Text) → List (Text × Text)
placed m [] = m ∷ []
placed m (n ∷ ns) = elim (before m.0 n.0) [ true ↦ m ∷ n ∷ ns | false ↦ n ∷ placed m ns ]

abbrev sorted : List (Text × Text) → List (Text × Text)
sorted [] = []
sorted (m ∷ ms) = placed m (sorted ms)

abbrev separated : List Text → Text
separated [] = []
separated (s ∷ []) = s
separated (s ∷ t ∷ ss) = s ++ (text "," ++ separated (t ∷ ss))

abbrev in_quotes : Text → Text
in_quotes s = text "\"" ++ (s ++ text "\"")

unfoldable pub number_text : ℤ → Text
unfolding decimal_ℤ
number_text = decimal_ℤ

abbrev pub compact : Json
compact = record {
  Value = Text;
  null = text "null";
  bool = λ b. if b then text "true" else text "false";
  number = number_text;
  string = in_quotes;
  array = λ vs. text "[" ++ (separated vs ++ text "]");
  object = λ ms.
      let members = map (λ (m : Text × Text). in_quotes m.0 ++ (text ":" ++ m.1)) (sorted ms) in
      text "{" ++ (separated members ++ text "}");
}
