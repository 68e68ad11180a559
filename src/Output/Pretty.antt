-- ===== src/Output/Pretty.antt =====
-- crates/loi-output/src/pretty.rs: the state of the columns and of the groups, and one line.
pub mod Lines
pub mod Refine
pub mod Colored
pub mod Texts
pub mod Appends
pub mod OneLine
pub mod Separate
use loi.Prelude.{
  ℕ, zero, suc, ◌+◌, ◌-◌, max, ◌&&◌, Option, none, some, List, [], ◌∷◌, ◌++◌, map, length,
  replicate, Bool, true, false, ◌==◌, if◌then◌else◌,
}
use loi.Prelude.Int.{ℤ, negsuc, eq_ℤ}
use loi.Prelude.Print.{decimal_ℤ}
use loi.Prelude.Result.{NoError, Result, ok, err, panic}
use loi.Prelude.Text.{Text, text, text_beq, join}
use loi.Prelude.Word.{Profile}
use loi.Core.Event.{SyscallEvent}
use loi.Syscalls.Decoder.{DecodedArg, DecodedCall, Category}
use loi.Output.{ErrnoTable, errno_of_ret, is_path_lookup, lookup_basename}
use loi.Output.Escape.{chars}
use loi.Output.Duration.{fmt_duration}
use loi.Output.Render.{render_arg_text}
use loi.Output.Style.{Colors, PrettyConfig, name_style}
use loi.Output.Stream.{Stream, Writing, continue, ◌>>◌, put, nothing, panics}

pub record PrettyState : Type 0 where
  pub pid_width : ℕ
  pub name_width : ℕ
  pub last_basename : Option Text
  pub last_pid : Option ℤ

abbrev pub state_new : PrettyState
state_new = record { pid_width = 0; name_width = 0; last_basename = none; last_pid = none }

-- The arrow U+21B3 and a space.
abbrev pub burst_prefix : Text
burst_prefix = 0xe2 ∷ 0x86 ∷ 0xb3 ∷ 32 ∷ []

-- `s.chars().count()`
abbrev pub char_count : Text → ℕ
char_count s = length (chars s)

abbrev pub spaces : ℕ → Text
spaces n = replicate n 32

-- `{s:<width$}`
abbrev pub left_aligned : ℕ → Text → Text
left_aligned width s = s ++ spaces (width - char_count s)

abbrev pub ret_enoent : ℤ
ret_enoent = negsuc 1

-- `format!("[{}]", ev.pid)`
abbrev pub bracketed : ℤ → Text
bracketed pid = text "[" ++ (decimal_ℤ pid ++ text "]")

-- The widths of the columns, grown where they are aligned.
unfoldable pub widened : PrettyConfig → Text → Text → PrettyState → PrettyState
widened cfg pid name s =
    if cfg.aligned
    then record s {
      pid_width = max s.pid_width (length pid);
      name_width = max s.name_width (length name);
    }
    else s

-- `(pid_pad, name_pad)` from the grown widths.
unfoldable pub pads : PrettyConfig → Text → Text → PrettyState → ℕ × ℕ
pads cfg pid name s =
    if cfg.aligned then (s.pid_width - length pid, s.name_width - length name) else (0, 0)

-- `current_basename.is_some() && current_basename.map(str::to_owned) == last_basename`
abbrev pub same_base : Option Text → Option Text → Bool
same_base (some b) (some last) = text_beq b last
same_base _ _ = false

-- `last_pid == Some(pid)`
abbrev pub same_pid : Option ℤ → ℤ → Bool
same_pid none pid = false
same_pid (some last) pid = eq_ℤ last pid

unfoldable pub is_continuation : PrettyConfig → Option Text → ℤ → PrettyState → Bool
is_continuation cfg base pid s =
    cfg.group_lookups && (same_base base s.last_basename && same_pid s.last_pid pid)

-- What the next call looks back on.
unfoldable pub looked_up : Option Text → ℤ → PrettyState → PrettyState
looked_up none pid s = s
looked_up (some b) pid s = record s { last_basename = some b; last_pid = some pid }

abbrev pub args_joined : DecodedCall → Text
args_joined decoded = join (text ", ") (map (λ a. render_arg_text a.1) decoded.args)

module _ (c : Colors) where
  -- The arms of `write_ret`: the errno, or none.
  abbrev pub ret_text : ℤ → Bool → Bool → Option (Text × Text) → Text
  ret_text ret color dim (some (symbol, description)) =
      let n = decimal_ℤ ret in
      if dim
      then c.dimmed n
        ++ (text " " ++ (c.dimmed symbol ++ (text " (" ++ (c.dimmed description ++ text ")"))))
      else if color
      then c.red (c.bold n)
        ++ (text " " ++ (c.red (c.bold symbol) ++ (text " (" ++ (description ++ text ")"))))
      else n ++ (text " " ++ (symbol ++ (text " (" ++ (description ++ text ")"))))
  ret_text ret color dim none =
      let n = decimal_ℤ ret in if dim then c.dimmed n else if color then c.bold n else n

  -- The texts of one line, as `write_event` puts them out.
  pub record Line : Type 0 where
    pub pid : Text
    pub name : Text
    pub args : Text
    pub duration : Text
    pub pid_pad : ℕ
    pub name_pad : ℕ
    pub continues : Bool
    pub dim : Bool
    pub style : c.Style
    pub ret : ℤ

  -- The line of an event, from the widened state.
  unfoldable pub line_of :
      SyscallEvent → DecodedCall → Option Category → PrettyConfig → PrettyState → Line
  line_of ev decoded category cfg s =
      let pid_text = bracketed ev.pid in
      let base = lookup_basename ev.syscall_name decoded in
      let dim_line =
        cfg.dim_lookups
        && (cfg.color && (eq_ℤ ev.ret ret_enoent && is_path_lookup ev.syscall_name)) in
      record {
        pid = pid_text;
        name = ev.syscall_name;
        args = args_joined decoded;
        duration = text "<" ++ (fmt_duration ev.duration ++ text ">");
        pid_pad = (pads cfg pid_text ev.syscall_name s).0;
        name_pad = (pads cfg pid_text ev.syscall_name s).1;
        continues = is_continuation cfg base ev.pid s;
        dim = dim_line;
        style = name_style c cfg category dim_line;
        ret = ev.ret;
      }

module _ (io : Stream) where
  abbrev pub Written : Type 0
  Written = Writing io.Error io.Out

  unfoldable pub write_spaces : ℕ → Written
  write_spaces n = if n == 0 then nothing else put io (spaces n)

  unfoldable pub write_pid_column_plain : Text → ℕ → Bool → Written
  unfolding write_spaces
  write_pid_column_plain pid pid_pad true = do
    write_spaces (length pid + pid_pad - char_count burst_prefix)
    put io burst_prefix
  write_pid_column_plain pid pid_pad false = put io (left_aligned (length pid + pid_pad) pid)

  module _ (c : Colors) where
    unfoldable pub write_pid_column_color : Text → ℕ → Bool → Written
    unfolding write_spaces
    write_pid_column_color pid pid_pad true = do
      write_spaces (length pid + pid_pad - char_count burst_prefix)
      put io (c.dimmed burst_prefix)
    write_pid_column_color pid pid_pad false = do put io (c.dimmed pid); write_spaces pid_pad

    unfoldable pub write_ret : Profile → ErrnoTable → ℤ → Bool → Bool → Written
    write_ret profile table ret color dim = elim (errno_of_ret profile table ret) [
      | ok errno ↦ put io (ret_text c ret color dim errno)
      | err e ↦ panics
      | panic ↦ panics
    ]

    unfoldable pub write_color : Profile → ErrnoTable → Line c → Written
    write_color profile table l = do
      write_pid_column_color l.pid l.pid_pad l.continues
      put io (text " " ++ c.styled l.style l.name)
      write_spaces l.name_pad
      put io (text "(" ++ (l.args ++ text ") = "))
      write_ret profile table l.ret true l.dim
      put io (text " " ++ (c.styled (c.style_dimmed c.style_new) l.duration ++ text "\n"))

    unfoldable pub write_plain : Profile → ErrnoTable → Line c → Written
    write_plain profile table l = do
      write_pid_column_plain l.pid l.pid_pad l.continues
      put io (
          text " "
          ++ (left_aligned (length l.name + l.name_pad) l.name
              ++ (text "(" ++ (l.args ++ text ") = "))))
      write_ret profile table l.ret false false
      put io (text " " ++ (l.duration ++ text "\n"))

    -- The state after the writes: what was looked up is kept if all of them succeeded.
    abbrev pub settled : Option Text → ℤ → PrettyState → Result io.Error (Unit {0}) → PrettyState
    settled base pid s (ok u) = looked_up base pid s
    settled base pid s _ = s

    unfoldable pub write_event :
        Profile
        → ErrnoTable
        → SyscallEvent
        → DecodedCall
        → Option Category
        → PrettyConfig
        → PrettyState
        → io.Out
        → Result io.Error (Unit {0}) × PrettyState × io.Out
    unfolding write_color write_plain
    write_event profile table ev decoded category cfg s o =
        let s' = widened cfg (bracketed ev.pid) ev.syscall_name s in
        let l = line_of c ev decoded category cfg s' in
        let (res, o') =
          (if cfg.color then write_color profile table l else write_plain profile table l) o in
        (res, settled (lookup_basename ev.syscall_name decoded) ev.pid s' res, o')
