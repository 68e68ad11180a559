-- ===== src/Output/Pretty/Lines.antt =====
-- What the lines of a run say, by the calls before each: an independent description of the columns
-- and of the groups.
use loi.Prelude.{
  ℕ, ◌-◌, max, ◌&&◌, Option, none, some, List, [], ◌∷◌, ◌++◌, length, Bool, false, if◌then◌else◌,
}
use loi.Prelude.Int.{ℤ, negsuc, eq_ℤ}
use loi.Prelude.Text.{Text, text, text_beq}
use loi.Prelude.Print.{decimal_ℤ}
use loi.Core.Event.{SyscallEvent}
use loi.Syscalls.Decoder.{DecodedCall, Category}
use loi.Output.{ErrnoTable, is_path_lookup, lookup_basename}
use loi.Output.Errno.{errno_named}
use loi.Output.Duration.{fmt_duration}
use loi.Output.Style.{Colors, PrettyConfig, category_style}
use loi.Output.Pretty.{bracketed, burst_prefix, left_aligned, spaces, args_joined}

-- A call that is shown: what `write_event` is given of it.
abbrev pub Call : Type 0
Call = SyscallEvent × DecodedCall × Option Category

abbrev pub pid_size : Call → ℕ
pid_size (ev, decoded, category) = length (bracketed ev.pid)

abbrev pub name_size : Call → ℕ
name_size (ev, decoded, category) = length ev.syscall_name

abbrev pub base_of : Call → Option Text
base_of (ev, decoded, category) = lookup_basename ev.syscall_name decoded

-- The greatest size of the calls, the latest first.
abbrev pub widest : (Call → ℕ) → List Call → ℕ
widest size [] = 0
widest size (call ∷ past) = max (widest size past) (size call)

-- A column that is aligned is as wide as its widest entry so far, another as its own.
abbrev pub column : PrettyConfig → (Call → ℕ) → List Call → Call → ℕ
column cfg size past call = if cfg.aligned then widest size (call ∷ past) else size call

-- The base name and the process of the latest lookup.
abbrev pub last_lookup : List Call → Option (Text × ℤ)
last_lookup [] = none
last_lookup (call ∷ past) = elim (base_of call) [
  | some b ↦ some (b, call.0.pid)
  | none ↦ last_lookup past
]

abbrev pub same_lookup : Option Text → ℤ → Option (Text × ℤ) → Bool
same_lookup (some b) pid (some (last, last_pid)) = text_beq b last && eq_ℤ last_pid pid
same_lookup _ pid _ = false

-- A call goes on with a group when the latest lookup was of the same base name by the same process.
abbrev pub goes_on : PrettyConfig → List Call → Call → Bool
goes_on cfg past call =
    cfg.group_lookups && same_lookup (base_of call) call.0.pid (last_lookup past)

abbrev pub pid_column : PrettyConfig → List Call → Call → Text
pid_column cfg past call =
    let width = column cfg pid_size past call in
    if goes_on cfg past call
    then spaces (width - 2) ++ burst_prefix
    else bracketed call.0.pid ++ spaces (width - pid_size call)

abbrev pub result_text : ℤ → Option (Text × Text) → Text
result_text ret none = decimal_ℤ ret
result_text ret (some (symbol, description)) =
    decimal_ℤ ret ++ (text " " ++ (symbol ++ (text " (" ++ (description ++ text ")"))))

-- The line of a call after others, without colors and without its end.
abbrev pub shown_plain : ErrnoTable → PrettyConfig → List Call → Call → Text
shown_plain table cfg past call =
    let (ev, decoded, category) = call in
    pid_column cfg past call
    ++ (text " "
        ++ (left_aligned (column cfg name_size past call) ev.syscall_name
            ++ (text "("
                ++ (args_joined decoded
                    ++ (text ") = "
                        ++ (result_text ev.ret (errno_named table ev.ret)
                            ++ (text " <" ++ (fmt_duration ev.duration ++ text ">"))))))))

module _ (c : Colors) where
  -- A lookup that found nothing is dimmed, where the configuration says so.
  abbrev pub is_faint : PrettyConfig → Call → Bool
  is_faint cfg (ev, decoded, category) =
      cfg.dim_lookups && (eq_ℤ ev.ret (negsuc 1) && is_path_lookup ev.syscall_name)

  abbrev pub tone : PrettyConfig → Call → c.Style
  tone cfg call =
      if is_faint cfg call
      then c.style_dimmed c.style_new
      else if cfg.category_colors
      then category_style c call.2
      else c.style_cyan (c.style_bold c.style_new)

  abbrev pub pid_column_colored : PrettyConfig → List Call → Call → Text
  pid_column_colored cfg past call =
      let width = column cfg pid_size past call in
      if goes_on cfg past call
      then spaces (width - 2) ++ c.dimmed burst_prefix
      else c.dimmed (bracketed call.0.pid) ++ spaces (width - pid_size call)

  -- An error stands out in red, and only its description does not; a faint line has no red.
  abbrev pub result_colored : Bool → ℤ → Option (Text × Text) → Text
  result_colored faint ret none = if faint then c.dimmed (decimal_ℤ ret) else c.bold (decimal_ℤ ret)
  result_colored faint ret (some (symbol, description)) =
      let paint = λ (s : Text). if faint then c.dimmed s else c.red (c.bold s) in
      let told = if faint then c.dimmed description else description in
      paint (decimal_ℤ ret) ++ (text " " ++ (paint symbol ++ (text " (" ++ (told ++ text ")"))))

  -- The line of a call after others, with colors and without its end.
  abbrev pub shown_colored : ErrnoTable → PrettyConfig → List Call → Call → Text
  shown_colored table cfg past call =
      let (ev, decoded, category) = call in
      pid_column_colored cfg past call
      ++ (text " "
          ++ (c.styled (tone cfg call) ev.syscall_name
              ++ (spaces (column cfg name_size past call - name_size call)
                  ++ (text "("
                      ++ (args_joined decoded
                          ++ (text ") = "
                              ++ (result_colored (is_faint cfg call) ev.ret
                                    (errno_named table ev.ret)
                                  ++ (text " "
                                      ++ c.styled (c.style_dimmed c.style_new) (
                                          text "<"
                                          ++ (fmt_duration ev.duration ++ text ">"))))))))))

  abbrev pub shown : ErrnoTable → PrettyConfig → List Call → Call → Text
  shown table cfg past call =
      if cfg.color then shown_colored table cfg past call else shown_plain table cfg past call

  -- The lines of calls that follow others.
  abbrev pub all_shown : ErrnoTable → PrettyConfig → List Call → List Call → Text
  all_shown table cfg past [] = []
  all_shown table cfg past (call ∷ calls) =
      shown table cfg past call ++ (10 ∷ all_shown table cfg (call ∷ past) calls)
