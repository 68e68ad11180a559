-- ===== src/Output/Pretty/OneLine.antt =====
-- Where the line of an event ends: what `write_event` puts before its newline holds none.
use loi.Prelude.{
  ℕ, suc, ◌-◌, ◌+◌, ◌^◌, ltb, if◌then◌else◌, ◌≡◌, refl, Option, [], ◌∷◌, ◌++◌, length, Bool, true,
  false, All, arith,
}
use loi.Prelude.Int.{ℤ, pos, negsuc, IsI64}
use loi.Prelude.Result.{ok}
use loi.Prelude.Text.{Text, text}
use loi.Prelude.Word.{Profile}
use loi.Core.Event.{SyscallEvent}
use loi.Syscalls.Decoder.{DecodedCall, Category}
use loi.Output.{ErrnoTable, lookup_basename}
use loi.Output.Errno.{errno_named, is_least, errno_of_ret_named}
use loi.Output.Duration.{fmt_duration}
use loi.Output.Clean.{IsClean, append-IsClean, join-IsClean, HasCleanNames, fmt_duration-IsClean}
use loi.Output.Stream.{buffer, put}
use loi.Output.Style.{Colors, PrettyConfig}
use loi.Output.Pretty.{
  PrettyState, bracketed, left_aligned, burst_prefix, Line, line_of, ret_text, write_spaces,
  write_pid_column_plain, write_pid_column_color, write_ret, write_color, write_plain, write_event,
  widened, looked_up,
}
use loi.Output.Pretty.Appends.{
  Appends, put-Appends, then-Appends, Ends, then-Ends, write_spaces-Appends,
}
use loi.Output.Pretty.Texts.{
  guarded-CleanErrno, ret_text-IsClean, left_aligned-IsClean, bracketed-IsClean,
  args_joined-IsClean, KeepsLines, CleanErrno,
}

module _ (E : Type 0) where
  module _ (c : Colors) (keeps : KeepsLines c) where
    -- The texts of a line are clean.
    abbrev CleanLine : Line c → Type 0
    CleanLine l = IsClean l.pid × IsClean l.name × IsClean l.args × IsClean l.duration

    column_plain-Appends :
        (pid : Text) (pad : ℕ) (goes : Bool)
        → IsClean pid
        → Appends E (write_pid_column_plain (buffer E) pid pad goes)
    unfolding write_pid_column_plain
    column_plain-Appends pid pad true h =
        then-Appends E (write_spaces (buffer E) _) (put (buffer E) burst_prefix)
          (write_spaces-Appends E _) (put-Appends E burst_prefix (omega arith))
    column_plain-Appends pid pad false h =
        put-Appends E (left_aligned (length pid + pad) pid)
          (left_aligned-IsClean (length pid + pad) pid h)

    column_color-Appends :
        (pid : Text) (pad : ℕ) (goes : Bool)
        → IsClean pid
        → Appends E (write_pid_column_color (buffer E) c pid pad goes)
    unfolding write_pid_column_color
    column_color-Appends pid pad true h =
        then-Appends E (write_spaces (buffer E) _) (put (buffer E) (c.dimmed burst_prefix))
          (write_spaces-Appends E _)
          (put-Appends E (c.dimmed burst_prefix) (keeps.dimmed_clean burst_prefix (omega arith)))
    column_color-Appends pid pad false h =
        then-Appends E (put (buffer E) (c.dimmed pid)) (write_spaces (buffer E) pad)
          (put-Appends E (c.dimmed pid) (keeps.dimmed_clean pid h)) (write_spaces-Appends E pad)

    module _ (profile : Profile) (table : ErrnoTable)
        (clean_table : (n : ℕ) → CleanErrno (table n)) where
      errno_named-CleanErrno : (ret : ℤ) → CleanErrno (errno_named table ret)
      errno_named-CleanErrno (pos n) = tt
      errno_named-CleanErrno (negsuc n) =
          guarded-CleanErrno (ltb n (2 ^ 31 - 1)) (table (suc n)) (clean_table (suc n))

      write_ret-Appends :
          (ret : ℤ) (color dim : Bool)
          → IsI64 ret
          → is_least ret ≡ false
          → Appends E (write_ret (buffer E) c profile table ret color dim)
      unfolding write_ret
      write_ret-Appends ret color dim i64 least =
          rw (errno_of_ret_named profile table ret i64 least, write_ret)
            (put-Appends E (ret_text c ret color dim (errno_named table ret)) (
              ret_text-IsClean c keeps ret color dim (errno_named table ret)
                (errno_named-CleanErrno ret)))

      write_color-Ends :
          (l : Line c)
          → CleanLine l
          → IsI64 l.ret
          → is_least l.ret ≡ false
          → Ends E (write_color (buffer E) c profile table l)
      unfolding write_color
      write_color-Ends l (pid, name, args, duration) i64 least =
          let plain_style = c.style_dimmed c.style_new in
          let shown = keeps.styled_clean plain_style l.duration duration in
          then-Ends E _ _ (column_color-Appends l.pid l.pid_pad l.continues pid) (
            then-Ends E _ _
              (put-Appends E (text " " ++ c.styled l.style l.name) (
                append-IsClean (text " ") _ (omega arith) (keeps.styled_clean l.style l.name name)))
              (then-Ends E _ _ (write_spaces-Appends E l.name_pad) (
                then-Ends E _ _
                  (put-Appends E (text "(" ++ (l.args ++ text ") = ")) (
                    append-IsClean (text "(") _ (omega arith)
                      (append-IsClean l.args (text ") = ") args (omega arith))))
                  (then-Ends E _ _ (write_ret-Appends l.ret true l.dim i64 least) (λ o. (
                    text " " ++ c.styled plain_style l.duration,
                    refl,
                    append-IsClean (text " ") _ (omega arith) shown,
                  ))))))

      write_plain-Ends :
          (l : Line c)
          → CleanLine l
          → IsI64 l.ret
          → is_least l.ret ≡ false
          → Ends E (write_plain (buffer E) c profile table l)
      unfolding write_plain
      write_plain-Ends l (pid, name, args, duration) i64 least =
          let width = length l.name + l.name_pad in
          then-Ends E _ _ (column_plain-Appends l.pid l.pid_pad l.continues pid) (
            then-Ends E _ _
              (put-Appends E
                (text " " ++ (left_aligned width l.name ++ (text "(" ++ (l.args ++ text ") = "))))
                (append-IsClean (text " ") _ (omega arith) (
                  append-IsClean (left_aligned width l.name) _
                    (left_aligned-IsClean width l.name name)
                    (append-IsClean (text "(") _ (omega arith)
                      (append-IsClean l.args (text ") = ") args (omega arith))))))
              (then-Ends E _ _ (write_ret-Appends l.ret false false i64 least) (λ o. (
                text " " ++ l.duration,
                refl,
                append-IsClean (text " ") l.duration (omega arith) duration,
              ))))

      line_of-CleanLine :
          (ev : SyscallEvent) (decoded : DecodedCall) (category : Option Category)
          (cfg : PrettyConfig) (s : PrettyState)
          → IsClean ev.syscall_name
          → All (λ a. HasCleanNames a.1) decoded.args
          → CleanLine (line_of c ev decoded category cfg s)
      unfolding line_of
      line_of-CleanLine ev decoded category cfg s name args = (
        bracketed-IsClean ev.pid,
        name,
        join-IsClean (text ", ") _ (omega arith) (args_joined-IsClean decoded.args args),
        append-IsClean (text "<") _ (omega arith) (
            append-IsClean (fmt_duration ev.duration) (text ">") (fmt_duration-IsClean ev.duration)
              (omega arith)),
      )

      either-Ends :
          (color : Bool) (l : Line c)
          → CleanLine l
          → IsI64 l.ret
          → is_least l.ret ≡ false
          → Ends E (
              if color
              then write_color (buffer E) c profile table l
              else write_plain (buffer E) c profile table l)
      either-Ends true l clean i64 least = write_color-Ends l clean i64 least
      either-Ends false l clean i64 least = write_plain-Ends l clean i64 least

      -- With colors and without, where the styles, the errno's texts, the name of the call and the
      -- names of flags hold no newline, and the result negates without overflow: an event ends well and
      -- appends one line, a text without a newline and one newline, whatever the bytes of its paths, its
      -- buffers and its argument vectors.
      pub write_event-one_line :
          (ev : SyscallEvent) (decoded : DecodedCall) (category : Option Category)
          (cfg : PrettyConfig) (s : PrettyState) (o : Text)
          → IsI64 ev.ret
          → is_least ev.ret ≡ false
          → IsClean ev.syscall_name
          → All (λ a. HasCleanNames a.1) decoded.args
          → (line : Text) × (s' : PrettyState) × (write_event
                (buffer E)
                c
                profile
                table
                ev
                decoded
                category
                cfg
                s
                o
              ≡ (ok tt, s', o ++ (line ++ (10 ∷ []))))
            × IsClean line
      unfolding write_event line_of
      write_event-one_line ev decoded category cfg s o i64 least name args =
          let s' = widened cfg (bracketed ev.pid) ev.syscall_name s in
          let l = line_of c ev decoded category cfg s' in
          let (line, wrote, clean) =
            either-Ends cfg.color l (line_of-CleanLine ev decoded category cfg s' name args) i64
              least o in
          (
            line,
            looked_up (lookup_basename ev.syscall_name decoded) ev.pid s',
            rw (wrote, write_event) refl,
            clean,
          )
