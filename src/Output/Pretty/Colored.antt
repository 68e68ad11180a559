-- ===== src/Output/Pretty/Colored.antt =====
-- The formatter with colors writes the lines of the independent description too; and one event in
-- either way.
use loi.Prelude.{
  ℕ, ◌+◌, ◌-◌, ◌≡◌, refl, ◌∙◌, List, [], ◌∷◌, ◌++◌, append_assoc, length, Bool, true, false,
  if◌then◌else◌, arith, inl, inr,
}
use loi.Prelude.Tests.{Bool-cases, Option-cases}
use loi.Prelude.Int.{ℤ, IsI64}
use loi.Prelude.Result.{ok}
use loi.Prelude.Text.{Text, text}
use loi.Prelude.Word.{Profile}
use loi.Output.{ErrnoTable}
use loi.Output.Errno.{errno_named, is_least, errno_of_ret_named}
use loi.Output.Style.{Colors, PrettyConfig, name_style}
use loi.Output.Stream.{buffer}
use loi.Output.Pretty.{
  bracketed, spaces, burst_prefix, write_pid_column_color, write_color, write_ret, line_of, Line,
  write_event,
}
use loi.Output.Pretty.Refine.{
  view, looked_up-view, is_continuation-view, padded, write_spaces_lem, burst_prefix-size,
  line_after, write_plain-shown_plain,
}
use loi.Output.Pretty.Lines.{
  is_faint, tone, pid_column_colored, result_colored, shown_colored, shown, Call, pid_size,
  name_size, column,
}

module _ (E : Type 0) (c : Colors) (profile : Profile) (table : ErrnoTable) where
  write_ret_colored :
      (ret : ℤ) (faint : Bool) (o : Text)
      → IsI64 ret
      → is_least ret ≡ false
      → write_ret (buffer E) c profile table ret true faint o
        ≡ (ok tt, o ++ result_colored c faint ret (errno_named table ret))
  unfolding write_ret
  write_ret_colored ret faint o i64 least =
      rw (errno_of_ret_named profile table ret i64 least, write_ret)
        (elim (Option-cases (errno_named table ret)) [
          | inl n ↦ rw n (elim (Bool-cases faint) [ inl f ↦ rw f refl | inr f ↦ rw f refl ])
          | inr (e, n) ↦ rw n (elim (Bool-cases faint) [ inl f ↦ rw f refl | inr f ↦ rw f refl ])
        ])

  write_pid_column_color_lem :
      (pid : Text) (pad : ℕ) (goes : Bool) (o : Text)
      → write_pid_column_color (buffer E) c pid pad goes o ≡ (
        ok tt,
        o
            ++ (if goes
                then spaces (length pid + pad - 2) ++ c.dimmed burst_prefix
                else c.dimmed pid ++ spaces pad),
      )
  unfolding write_pid_column_color
  write_pid_column_color_lem pid pad true o =
      rw (burst_prefix-size, write_spaces_lem E (length pid + pad - 2) o, append_assoc o) refl
  write_pid_column_color_lem pid pad false o =
      rw (write_spaces_lem E pad (o ++ c.dimmed pid), append_assoc o) refl

  write_color_lem :
      (l : Line c) (column result : Text) (o : Text)
      → write_pid_column_color (buffer E) c l.pid l.pid_pad l.continues o ≡ (ok tt, o ++ column)
      → ((o' : Text)
          → write_ret (buffer E) c profile table l.ret true l.dim o' ≡ (ok tt, o' ++ result))
      → write_color (buffer E) c profile table l o ≡ (
        ok tt,
        o
            ++ (column
                ++ (text " "
                    ++ (c.styled l.style l.name
                        ++ (spaces l.name_pad
                            ++ (text "("
                                ++ (l.args
                                    ++ (text ") = "
                                        ++ (result
                                            ++ (text " "
                                                ++ (c.styled (c.style_dimmed c.style_new) l.duration
                                                    ++ text "\n")))))))))),
      )
  unfolding write_color
  write_color_lem l column result o first second =
      rw (first, write_color)
        (rw (write_spaces_lem E l.name_pad _, write_color)
          (rw (second _, write_color) (simp append_assoc refl)))

  pid_column_colored-line_of :
      (cfg : PrettyConfig) (past : List Call) (call : Call) (o : Text)
      → let l = line_after E c profile table cfg past call in
        write_pid_column_color (buffer E) c l.pid l.pid_pad l.continues o
        ≡ (ok tt, o ++ pid_column_colored c cfg past call)
  unfolding line_of
  pid_column_colored-line_of cfg past call o =
      let l = line_after E c profile table cfg past call in
      let pad : l.pid_pad ≡ column cfg pid_size past call - pid_size call =
        (let p = (padded cfg past call).0 in omega (arith, p)) in
      write_pid_column_color_lem (bracketed call.0.pid) l.pid_pad l.continues o
      ∙ rw ((padded cfg past call).0, is_continuation-view cfg past call) (rw pad refl)

  line_of-tone :
      (cfg : PrettyConfig) (past : List Call) (call : Call)
      → cfg.color ≡ true
      → let l = line_after E c profile table cfg past call in
        (l.dim ≡ is_faint c cfg call) × (l.style ≡ tone c cfg call)
  unfolding line_of name_style
  line_of-tone cfg past call colored =
      (grind arith, grind (arith, Bool-cases cfg.category_colors, Bool-cases (is_faint c cfg call)))

  write_color-shown_colored :
      (cfg : PrettyConfig) (past : List Call) (call : Call) (o : Text)
      → cfg.color ≡ true
      → IsI64 call.0.ret
      → is_least call.0.ret ≡ false
      → write_color (buffer E) c profile table (line_after E c profile table cfg past call) o
        ≡ (ok tt, o ++ (shown_colored c table cfg past call ++ (10 ∷ [])))
  unfolding line_of
  write_color-shown_colored cfg past call o colored i64 least =
      let l = line_after E c profile table cfg past call in
      let (dim, style) = line_of-tone cfg past call colored in
      let pad : l.name_pad ≡ column cfg name_size past call - name_size call =
        (let p = (padded cfg past call).1 in omega (arith, p)) in
      write_color_lem l (pid_column_colored c cfg past call)
        (result_colored c (is_faint c cfg call) call.0.ret (errno_named table call.0.ret)) o
        (pid_column_colored-line_of cfg past call o)
        (λ o'. write_ret_colored call.0.ret l.dim o' i64 least ∙ rw dim refl)
      ∙ rw (style, pad) (simp append_assoc refl)

  pub write_event-view :
      (cfg : PrettyConfig) (past : List Call) (call : Call) (o : Text)
      → IsI64 call.0.ret
      → is_least call.0.ret ≡ false
      → write_event (buffer E) c profile table call.0 call.1 call.2 cfg (view cfg past) o
        ≡ (ok tt, view cfg (call ∷ past), o ++ (shown c table cfg past call ++ (10 ∷ [])))
  unfolding write_event
  write_event-view cfg past call o i64 least = elim (Bool-cases cfg.color) [
    | inl colored ↦
        simp
          (
            colored,
            write_color-shown_colored cfg past call o colored i64 least,
            looked_up-view cfg past call,
          )
          refl
    | inr plain ↦
        simp
          (
            plain,
            write_plain-shown_plain E c profile table cfg past call o i64 least,
            looked_up-view cfg past call,
          )
          refl
  ]
