-- ===== src/Xtask.antt =====
-- xtask/src/main.rs: the tasks of the project. The crate xshell is a parameter, a shell that
-- answers each command by those that it ran before.
pub mod Checks
use loi.Prelude.{Bool, true, false, Option, none, some, List, [], ◌∷◌, ◌++◌}
use loi.Prelude.Result.{Result, ok, err, panic}
use loi.Prelude.Text.{Text, text}
use loi.Output.Stream.{Writing, ◌>>◌}

-- The subcommands.
pub data Cmd : Type 0 where
  ci : Cmd
  fmt : Bool → Cmd
  lint test doc_test coverage dist snapshots changelog changelog_unreleased : Cmd

-- What the source takes from `xshell::Shell`. `run` gives the error of a command, if it fails.
pub record Shell : Type 1 where
  pub Error : Type 0
  pub new : Option Error
  pub run : List Text → Text → Option Error

module _ (sh : Shell) where
  -- `anyhow::Error`, with the context that the source adds.
  pub record Failure : Type 0 where
    pub context : Option Text
    pub cause : sh.Error

  -- A part of a task, from the commands run before it, the latest first.
  abbrev pub Task : Type 0
  Task = Writing Failure (List Text)

  -- `cmd!(sh, "…").run()`, and what `?` makes of its error.
  abbrev ended : Option Text → Option sh.Error → Result Failure (Unit {0})
  ended context none = ok tt
  ended context (some e) = err (record { context = context; cause = e })

  unfoldable pub run : Text → Task
  run line ran = (ended none (sh.run ran line), line ∷ ran)

  -- With `.context(…)`.
  unfoldable pub run_context : Text → Text → Task
  run_context line context ran = (ended (some context) (sh.run ran line), line ∷ ran)

  -- `match Cli::parse().cmd`
  unfoldable pub task : Cmd → Task
  task ci = do
    run_context (text "cargo fmt --all -- --check") (text "formatter check failed")
    run_context
        (text "cargo clippy --workspace --all-targets --all-features --locked -- -D warnings")
        (text "clippy failed")
    run_context (text "cargo test --workspace --all-features") (text "tests failed")
    run_context (text "cargo test --workspace --all-features --doc") (text "doc tests failed")
  task (fmt true) = run (text "cargo fmt --all")
  task (fmt false) = run (text "cargo fmt --all -- --check")
  task lint =
      run_context
        (text "cargo clippy --workspace --all-targets --all-features --locked -- -D warnings")
        (text "clippy failed")
  task test = run_context (text "cargo test --workspace --all-features") (text "tests failed")
  task doc_test =
      run_context (text "cargo test --workspace --all-features --doc") (text "doc tests failed")
  task coverage =
      run_context (text "cargo llvm-cov --workspace --html")
        (text "coverage failed; install with: cargo install cargo-llvm-cov")
  task dist = run_context (text "cargo build --release --bin loi") (text "release build failed")
  task snapshots =
      run_context (text "cargo insta test --review")
        (text "snapshots failed; install with: cargo install cargo-insta")
  task changelog =
      run_context (text "git cliff -o CHANGELOG.md")
        (text "git-cliff failed; install with: cargo install git-cliff")
  task changelog_unreleased =
      run_context (text "git cliff --unreleased")
        (text "git-cliff failed; install with: cargo install git-cliff")

  -- `main`, after the parsing of its options: the shell is made first.
  unfoldable pub main : Cmd → Task
  main cmd ran = elim sh.new [
    | some e ↦ (err (record { context = none; cause = e }), ran)
    | none ↦ task cmd ran
  ]
