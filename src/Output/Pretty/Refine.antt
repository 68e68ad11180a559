-- ===== src/Output/Pretty/Refine.antt =====
-- The formatter with its state writes the lines of the independent description.
use loi.Prelude.{
  ℕ, ◌+◌, ◌-◌, ◌≡◌, refl, ap, ◌∙◌, Option, none, some, List, [], ◌∷◌, ◌++◌, append_assoc,
  append-nil, length, Bool, true, false, All-append, zero, suc, if◌then◌else◌, arith, inl, inr,
}
use loi.Prelude.Tests.{Bool-cases, Option-cases}
use loi.Prelude.Int.{ℤ, IsI64}
use loi.Prelude.Result.{ok}
use loi.Prelude.Text.{Text, text}
use loi.Prelude.Print.{decimal_ℤ}
use loi.Prelude.Print.Printable.{IsPrintable, decimal_ℤ-ArePrintable}
use loi.Output.Escape.{chars_from}
use loi.Output.Escape.Ascii.{chars-ascii}
use loi.Prelude.Word.{Profile}
use loi.Output.{ErrnoTable}
use loi.Output.Errno.{errno_named, is_least, errno_of_ret_named}
use loi.Output.Style.{Colors, PrettyConfig}
use loi.Output.Stream.{buffer}
use loi.Output.Pretty.{
  PrettyState, bracketed, spaces, left_aligned, widened, pads, is_continuation, looked_up,
  write_spaces, burst_prefix, char_count, write_pid_column_plain, write_ret, write_plain, line_of,
  Line,
}
use loi.Output.Pretty.Lines.{
  Call, pid_size, name_size, base_of, widest, column, last_lookup, goes_on, pid_column, result_text,
  shown_plain,
}

abbrev first_of : Option (Text × ℤ) → Option Text
first_of none = none
first_of (some (b, p)) = some b

abbrev second_of : Option (Text × ℤ) → Option ℤ
second_of none = none
second_of (some (b, p)) = some p

-- The state that stands for the calls so far.
abbrev pub view : PrettyConfig → List Call → PrettyState
view cfg past = record {
  pid_width = if cfg.aligned then widest pid_size past else 0;
  name_width = if cfg.aligned then widest name_size past else 0;
  last_basename = first_of (last_lookup past);
  last_pid = second_of (last_lookup past);
}

-- A step of the state is a step of what it stands for.
pub looked_up-view :
    (cfg : PrettyConfig) (past : List Call) (call : Call)
    → looked_up
        (base_of call)
        call.0.pid
        (widened cfg (bracketed call.0.pid) call.0.syscall_name (view cfg past))
      ≡ view cfg (call ∷ past)
unfolding looked_up widened
looked_up-view cfg past call = elim (Bool-cases cfg.aligned) [
  | inl a ↦ grind (arith, Option-cases (base_of call))
  | inr a ↦ grind (arith, Option-cases (base_of call))
]

pub is_continuation-view :
    (cfg : PrettyConfig) (past : List Call) (call : Call)
    → is_continuation cfg
        (base_of call)
        call.0.pid
        (widened cfg (bracketed call.0.pid) call.0.syscall_name (view cfg past))
      ≡ goes_on cfg past call
unfolding is_continuation widened
is_continuation-view cfg past call =
    grind
      (arith, Bool-cases cfg.aligned, Option-cases (base_of call), Option-cases (last_lookup past))

-- The columns of the code add the padding to the size of the entry.
pub padded :
    (cfg : PrettyConfig) (past : List Call) (call : Call)
    → let (ev, decoded, category) = call in
      let s = widened cfg (bracketed ev.pid) ev.syscall_name (view cfg past) in
      (pid_size call + (pads cfg (bracketed ev.pid) ev.syscall_name s).0
        ≡ column cfg pid_size past call)
      × (name_size call + (pads cfg (bracketed ev.pid) ev.syscall_name s).1
          ≡ column cfg name_size past call)
unfolding pads widened
padded cfg past call = elim (Bool-cases cfg.aligned) [
  | inl a ↦ (grind arith, grind arith)
  | inr a ↦ (grind arith, grind arith)
]

decimal_pid-size : (pid : ℤ) → char_count (bracketed pid) ≡ length (bracketed pid)
decimal_pid-size pid = ap length (
    chars-ascii (bracketed pid) (
      omega arith,
      All-append IsPrintable (decimal_ℤ pid) (text "]") (decimal_ℤ-ArePrintable pid) (omega arith),
    ))

-- The parts of a line on a buffer, whose writes do not fail.
pub write_spaces_lem :
    (E : Type 0) (n : ℕ) (o : Text) → write_spaces (buffer E) n o ≡ (ok tt, o ++ spaces n)
unfolding write_spaces
write_spaces_lem E zero o = rw (append-nil o) refl
write_spaces_lem E (suc n) o = ground arith

pub burst_prefix-size : char_count burst_prefix ≡ 2
unfolding chars_from
burst_prefix-size = refl

write_pid_column_plain_lem :
    (E : Type 0) (pid : ℤ) (pad : ℕ) (goes : Bool) (o : Text)
    → write_pid_column_plain (buffer E) (bracketed pid) pad goes o ≡ (
      ok tt,
      o
          ++ (if goes
              then spaces (length (bracketed pid) + pad - 2) ++ burst_prefix
              else bracketed pid ++ spaces (length (bracketed pid) + pad - length (bracketed pid))),
    )
unfolding write_pid_column_plain
write_pid_column_plain_lem E pid pad true o =
    rw (burst_prefix-size, write_spaces_lem E (length (bracketed pid) + pad - 2) o, append_assoc o)
      refl
write_pid_column_plain_lem E pid pad false o = rw (decimal_pid-size pid) refl

module _ (E : Type 0) (c : Colors) (profile : Profile) (table : ErrnoTable) where
  write_ret_lem :
      (ret : ℤ) (o : Text)
      → IsI64 ret
      → is_least ret ≡ false
      → write_ret (buffer E) c profile table ret false false o
        ≡ (ok tt, o ++ result_text ret (errno_named table ret))
  unfolding write_ret
  write_ret_lem ret o i64 least =
      rw (errno_of_ret_named profile table ret i64 least, write_ret)
        (elim (Option-cases (errno_named table ret)) [ inl n ↦ rw n refl | inr (e, n) ↦ rw n refl ])

  write_plain_lem :
      (l : Line c) (column result : Text) (o : Text)
      → write_pid_column_plain (buffer E) l.pid l.pid_pad l.continues o ≡ (ok tt, o ++ column)
      → ((o' : Text)
          → write_ret (buffer E) c profile table l.ret false false o' ≡ (ok tt, o' ++ result))
      → write_plain (buffer E) c profile table l o ≡ (
        ok tt,
        o
            ++ (column
                ++ (text " "
                    ++ (left_aligned (length l.name + l.name_pad) l.name
                        ++ (text "("
                            ++ (l.args
                                ++ (text ") = "
                                    ++ (result ++ (text " " ++ (l.duration ++ text "\n"))))))))),
      )
  unfolding write_plain
  write_plain_lem l column result o first second =
      rw (first, write_plain) (rw (second _, write_plain) (simp append_assoc refl))

  -- The line of a call after others, from the state that stands for these.
  abbrev pub line_after : PrettyConfig → List Call → Call → Line c
  line_after cfg past (ev, decoded, category) =
      line_of c ev decoded category cfg
        (widened cfg (bracketed ev.pid) ev.syscall_name (view cfg past))

  pid_column-line_of :
      (cfg : PrettyConfig) (past : List Call) (call : Call) (o : Text)
      → let l = line_after cfg past call in
        write_pid_column_plain (buffer E) l.pid l.pid_pad l.continues o
        ≡ (ok tt, o ++ pid_column cfg past call)
  unfolding line_of
  pid_column-line_of cfg past call o =
      let l = line_after cfg past call in
      write_pid_column_plain_lem E call.0.pid l.pid_pad l.continues o
      ∙ rw ((padded cfg past call).0, is_continuation-view cfg past call) refl

  -- The line without colors is the one that the description gives.
  pub write_plain-shown_plain :
      (cfg : PrettyConfig) (past : List Call) (call : Call) (o : Text)
      → IsI64 call.0.ret
      → is_least call.0.ret ≡ false
      → write_plain (buffer E) c profile table (line_after cfg past call) o
        ≡ (ok tt, o ++ (shown_plain table cfg past call ++ (10 ∷ [])))
  unfolding line_of
  write_plain-shown_plain cfg past call o i64 least =
      write_plain_lem (line_after cfg past call) (pid_column cfg past call)
        (result_text call.0.ret (errno_named table call.0.ret)) o
        (pid_column-line_of cfg past call o) (λ o'. write_ret_lem call.0.ret o' i64 least)
      ∙ rw ((padded cfg past call).1) (simp append_assoc refl)
