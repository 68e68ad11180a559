-- ===== src/Output.antt =====
-- crates/loi-output: of format_common.rs what both formats use, and the object of json.rs. The
-- crates serde_json and nix, as far as they are used, are parameters.
pub mod Errno
pub mod Escape
pub mod Duration
pub mod Render
pub mod Stream
pub mod Style
pub mod Clean
pub mod Pretty
pub mod JsonLine
pub mod Objects
use loi.Prelude.{
  ℕ, zero, suc, ◌^◌, ◌-◌, ◌||◌, ◌&&◌, Option, none, some, List, [], ◌∷◌, ◌++◌, map, length,
  is_empty, Bool, true, false, leb, ltb, ◌==◌, if◌then◌else◌,
}
use loi.Prelude.Int.{ℤ, pos, negsuc}
use loi.Prelude.Print.{hex}
use loi.Prelude.Result.{NoError, Result, ok, err, panic, ◌>>=◌, ◌>>◌}
use loi.Prelude.Text.{Text, text, text_beq}
use loi.Prelude.Word.{Profile, dev, release}
use loi.Core.Event.{SyscallEvent, serialize_duration}
use loi.Syscalls.Utf8.{from_utf8_lossy}
use loi.Syscalls.Decoder.{
  FdRepr, at_fdcwd, invalid, num, DecodedArg, path, fd, flags, mode, int, uint, bytes, ptr, argv,
  DecodedCall, debug_assert,
}

-- What the source takes from `serde_json`. An object has the members inserted, in this order.
pub record Json : Type 1 where
  pub Value : Type 0
  pub null : Value
  pub bool : Bool → Value
  pub number : ℤ → Value
  pub string : Text → Value
  pub array : List Value → Value
  pub object : List (Text × Value) → Value

-- `Errno::from_raw`, with the name and the description of the errno, and none for `UnknownErrno`.
abbrev pub ErrnoTable : Type 0
ErrnoTable = ℕ → Option (Text × Text)

-- `-ret` of a negative i64, the negation of `negsuc n`: it overflows for the least one, which in a
-- release build stays what it is.
abbrev negated : Profile → ℕ → Result NoError ℤ
negated dev n = if ltb n (2 ^ 63 - 1) then ok (pos (suc n)) else panic
negated release n = ok (if ltb n (2 ^ 63 - 1) then pos (suc n) else negsuc n)

-- `i32::try_from(x).ok()` of an i64.
abbrev as_i32_checked : ℤ → Option ℤ
as_i32_checked (pos n) = if leb n (2 ^ 31 - 1) then some (pos n) else none
as_i32_checked (negsuc n) = if ltb n (2 ^ 31) then some (negsuc n) else none

-- A negative number is no errno.
abbrev from_raw : ErrnoTable → ℤ → Option (Text × Text)
from_raw table (pos n) = table n
from_raw table (negsuc n) = none

unfoldable pub errno_of_ret : Profile → ErrnoTable → ℤ → Result NoError (Option (Text × Text))
errno_of_ret profile table (pos n) = ok none
errno_of_ret profile table (negsuc n) = do
  positive ← negated profile n
  ok (elim (as_i32_checked positive) [ none ↦ none | some raw ↦ from_raw table raw ])

unfoldable pub is_path_lookup : Text → Bool
is_path_lookup name =
    text_beq name (text "openat")
    || (text_beq name (text "open")
        || (text_beq name (text "newfstatat")
            || (text_beq name (text "access")
                || (text_beq name (text "faccessat")
                    || (text_beq name (text "stat") || text_beq name (text "statx"))))))

-- `p.rsplit(sep).next()`, with the segment read so far.
unfoldable pub after_last : ℕ → Text → Text → Text
after_last sep seg [] = seg
after_last sep seg (b ∷ s) = elim (b == sep) [
  | true ↦ after_last sep [] s
  | false ↦ after_last sep (seg ++ b ∷ []) s
]

-- The loop over the arguments: the first path with the label.
unfoldable pub pathname_base : List (Text × DecodedArg) → Option Text
pathname_base [] = none
pathname_base ((label, path p) ∷ rest) =
    if text_beq label (text "pathname") then some (after_last 47 [] p) else pathname_base rest
pathname_base ((label, arg) ∷ rest) = pathname_base rest

unfoldable pub lookup_basename : Text → DecodedCall → Option Text
lookup_basename name decoded = if is_path_lookup name then pathname_base decoded.args else none

module _ (j : Json) where
  unfoldable pub arg_to_json : DecodedArg → j.Value
  arg_to_json (path s) = j.string s
  arg_to_json (fd at_fdcwd) = j.string (text "AT_FDCWD")
  arg_to_json (fd invalid) = j.number (negsuc 0)
  arg_to_json (fd (num n)) = j.number (pos n)
  arg_to_json (flags names) = j.array (map j.string names)
  arg_to_json (mode m) = j.number (pos m)
  arg_to_json (int i) = j.number i
  arg_to_json (uint u) = j.number (pos u)
  arg_to_json (bytes inline total) = j.object (
      (text "inline", j.string (from_utf8_lossy inline))
      ∷ (text "total", j.number (pos total))
      ∷ (text "truncated", j.bool (ltb (length inline) total))
      ∷ [])
  arg_to_json (ptr n) = if n == 0 then j.null else j.string (text "0x" ++ hex n)
  arg_to_json (DecodedArg.hex n) = j.string (text "0x" ++ hex n)
  arg_to_json (argv entries) = j.array (map j.string entries)

  -- The element of `args` for one argument.
  abbrev pub member : Text × DecodedArg → j.Value
  member (name, arg) =
      j.object ((text "name", j.string name) ∷ (text "value", arg_to_json arg) ∷ [])

  abbrev errno_member : Option (Text × Text) → List (Text × j.Value)
  errno_member none = []
  errno_member (some (symbol, description)) = (text "errno_name", j.string symbol) ∷ []

  -- The object that `write_event` writes; none is the error for a duration over 64 bits.
  unfoldable pub event_to_json :
      Profile → ErrnoTable → SyscallEvent → DecodedCall → Result NoError (Option j.Value)
  event_to_json profile table ev decoded = elim (serialize_duration ev.duration) [
    | none ↦ ok none
    | some nanos ↦ do
      errno ← errno_of_ret profile table ev.ret
      ok (
          some (
            j.object (
              (text "pid", j.number ev.pid)
              ∷ (text "syscall_nr", j.number (pos ev.syscall_nr))
              ∷ (text "syscall_name", j.string ev.syscall_name)
              ∷ (text "ret", j.number ev.ret)
              ∷ (errno_member errno
                  ++ (text "duration", j.number (pos nanos))
                    ∷ (text "args", j.array (map member decoded.args))
                    ∷ []))))
  ]
