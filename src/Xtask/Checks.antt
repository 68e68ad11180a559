-- ===== src/Xtask/Checks.antt =====
-- What the task of the continuous integration checks.
use loi.Prelude.{◌≡◌, false, Option, none, some, List, [], ◌∷◌, arith}
use loi.Prelude.Result.{Result, ok, err, panic}
use loi.Prelude.Text.{Text}
use loi.Output.Stream.{continue}
use loi.Xtask.{
  Cmd, ci, fmt, lint, test, doc_test, Shell, Failure, Task, run, run_context, task, main,
}

module _ (sh : Shell) where
  -- A task without the context of its error: how it ended, and the commands that it ran.
  abbrev pub bare : Result (Failure sh) (Unit {0}) × List Text → Option sh.Error × List Text
  bare (ok u, ran) = (none, ran)
  bare (err failed, ran) = (some failed.cause, ran)
  bare (panic, ran) = (none, ran)

  -- Runs of the program one after another, until one fails.
  abbrev pub in_turn : List Cmd → Task sh
  in_turn [] ran = (ok tt, ran)
  in_turn (cmd ∷ cmds) ran = continue (main sh cmd ran) (in_turn cmds)

  -- The task `ci` runs the commands that the tasks of the formatter's check, of clippy, of the tests and
  -- of the doc tests run, one after another, up to the first that fails, and fails as it does, but for
  -- the context of the error.
  pub ci-in_turn :
      (ran : List Text)
      → bare (main sh ci ran) ≡ bare (in_turn (fmt false ∷ lint ∷ test ∷ doc_test ∷ []) ran)
  unfolding main task run run_context
  ci-in_turn ran = ground arith
