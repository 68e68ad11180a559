-- ===== src/Scenarios/Durations.antt =====
-- The theorem on durations (crates/loi-output/src/format_common.rs) at a tie, and the one on the task of
-- the continuous integration (xtask/src/main.rs) where clippy fails.
use loi.Prelude.{◌≡◌, refl, none, some, if◌then◌else◌, [], ◌∷◌, arith}
use loi.Prelude.Text.{Text, text, text_beq}
use loi.Output.Duration.{fmt_duration}
use loi.Output.Duration.Near.{IsNear, fmt_duration-IsNear}
use loi.Prelude.{false}
use loi.Xtask.{Shell, ci, fmt, lint, test, doc_test, task, run_context, main}
use loi.Xtask.Checks.{bare, in_turn, ci-in_turn}

-- 1.25 ms, which is halfway between two texts.
fmt_duration-IsNear_example : IsNear 1250000 50000 (text "ms") (fmt_duration 1250000)
fmt_duration-IsNear_example = fmt_duration-IsNear 1250000 (omega arith) (omega arith)

abbrev clippy : Text
clippy = text "cargo clippy --workspace --all-targets --all-features --locked -- -D warnings"

-- A shell in which clippy fails.
abbrev complains : Shell
complains = record {
  Error = Text;
  new = none;
  run = λ ran line. if text_beq line clippy then some (text "warnings") else none;
}

ci-in_turn_example :
    bare complains (main complains ci [])
    ≡ bare complains (in_turn complains (fmt false ∷ lint ∷ test ∷ doc_test ∷ []) [])
ci-in_turn_example = ci-in_turn complains []

-- It stops at clippy.
ci_stops :
    bare complains (main complains ci [])
    ≡ (some (text "warnings"), clippy ∷ text "cargo fmt --all -- --check" ∷ [])
unfolding main task run_context
ci_stops = refl
