-- ===== src/Output/Pretty/Separate.antt =====
-- The lines that the description gives, one by one.
use mathlib.Core.Path.{subst}
use loi.Prelude.{false, ℕ, ◌≡◌, refl, sym, ap, ◌∙◌, List, [], ◌∷◌, ◌++◌, length, All, suc}
use mathlib.Core.List.{append_cancel_right}
use loi.Prelude.Int.{IsI64}
use loi.Prelude.Text.{Text}
use loi.Prelude.Word.{Profile}
use loi.Output.{ErrnoTable}
use loi.Output.Clean.{IsClean, HasCleanNames}
use loi.Output.Style.{Colors, PrettyConfig}
use loi.Output.Pretty.Lines.{Call, shown, all_shown}
use loi.Output.Pretty.Refine.{view}
use loi.Output.Pretty.Colored.{write_event-view}
use loi.Output.Pretty.Texts.{KeepsLines, CleanErrno}
use loi.Output.Pretty.OneLine.{write_event-one_line}
use loi.Output.Errno.{is_least}

-- Lines, each with its end.
abbrev pub unlines : List Text → Text
unlines [] = []
unlines (line ∷ lines) = line ++ (10 ∷ unlines lines)

-- A call whose own texts hold no newline.
pub record IsShowable (call : Call) : Type 0 where
  pub fits : IsI64 call.0.ret
  pub negatable : is_least call.0.ret ≡ false
  pub clean_name : IsClean call.0.syscall_name
  pub clean_args : All (λ a. HasCleanNames a.1) call.1.args

module _ (c : Colors) (table : ErrnoTable) (cfg : PrettyConfig) where
  -- The lines of calls that follow others.
  abbrev pub lines_of : List Call → List Call → List Text
  lines_of past [] = []
  lines_of past (call ∷ calls) = shown c table cfg past call ∷ lines_of (call ∷ past) calls

  pub all_shown-eq-unlines :
      (past calls : List Call) → all_shown c table cfg past calls ≡ unlines (lines_of past calls)
  all_shown-eq-unlines past [] = refl
  all_shown-eq-unlines past (call ∷ calls) =
      ap (λ rest. shown c table cfg past call ++ (10 ∷ rest))
        (all_shown-eq-unlines (call ∷ past) calls)

  pub length-lines_of : (past calls : List Call) → length (lines_of past calls) ≡ length calls
  length-lines_of past [] = refl
  length-lines_of past (call ∷ calls) = ap suc (length-lines_of (call ∷ past) calls)

module _ (E : Type 0) (c : Colors) (keeps : KeepsLines c) (profile : Profile) (table : ErrnoTable)
    (clean_table : (n : ℕ) → CleanErrno (table n)) (cfg : PrettyConfig) where
  shown-IsClean :
      (past : List Call) (call : Call) → IsShowable call → IsClean (shown c table cfg past call)
  shown-IsClean past call h =
      let (line, s', wrote, clean) =
        write_event-one_line E c keeps profile table clean_table call.0 call.1 call.2 cfg
          (view cfg past) [] h.fits h.negatable h.clean_name h.clean_args in
      let described = write_event-view E c profile table cfg past call [] h.fits h.negatable in
      let same = ap (λ r. r.2) (sym wrote ∙ described) in
      subst IsClean (append_cancel_right line (shown c table cfg past call) (10 ∷ []) same) clean

  pub lines_of-IsClean :
      (past calls : List Call)
      → All IsShowable calls
      → All IsClean (lines_of c table cfg past calls)
  lines_of-IsClean past [] h = tt
  lines_of-IsClean past (call ∷ calls) (here, h) =
      (shown-IsClean past call here, lines_of-IsClean (call ∷ past) calls h)
