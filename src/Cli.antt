-- ===== src/Cli.antt =====
-- src/main.rs: the sink that the tracer hands its events to.
pub mod Stream
pub mod Lines
pub mod Formats
pub mod Shown
pub mod Typed
pub mod Passed
pub mod Exit
pub mod Main
use loi.Prelude.{
  ℕ, ◌≡◌, ◌&&◌, ◌||◌, not, Option, none, some, List, [], ◌∷◌, ◌++◌, Bool, true, false,
  if◌then◌else◌,
}
use loi.Prelude.Tests.{Eq}
use loi.Prelude.Int.{ℤ}
use loi.Prelude.Result.{NoError, Result, ok, err, panic, ◌>>=◌}
use loi.Prelude.Text.{Text, text}
use loi.Core.Event.{SyscallEvent}
use loi.Syscalls.Decoder.{Host, DecodeCtx, DecodedArg, uint, DecodedCall, Category}
use loi.Syscalls.Registry.{Table, Registry, decoder}
use loi.Filter.{Globset, Filter, matches_event, matches_decoded, needs_decode}

pub data OutputFormat : Type 0 where
  pretty json raw : OutputFormat

-- `io::ErrorKind`, as far as the source tells the kinds apart.
pub data ErrorKind : Type 0 where
  broken_pipe other : ErrorKind

-- What a writer of the crate loi-output is to the sink: from the state of the formatter and what
-- is written so far, how one write ends, and both after it.
pub record Writer : Type 1 where
  pub PrettyConfig : Type 0
  pub PrettyState : Type 0
  pub Out : Type 0
  pub Error : Type 0
  pub kind : Error → ErrorKind
  pub write_pretty :
      SyscallEvent
      → DecodedCall
      → Option Category
      → PrettyConfig
      → PrettyState
      → Out
      → Result Error (Unit {0}) × PrettyState × Out
  pub write_json : SyscallEvent → DecodedCall → Out → Result Error (Unit {0}) × Out
  pub flush : Out → Option Error × Out

-- `Option::is_some`
abbrev pub is_some {ℓ} : {A : Type ℓ} → Option A → Bool
is_some none = false
is_some (some a) = true

unfoldable pub fallback_decoded : SyscallEvent → DecodedCall
fallback_decoded ev = record {
  args =
      (text "arg0", uint ev.args.arg0)
      ∷ (text "arg1", uint ev.args.arg1)
      ∷ (text "arg2", uint ev.args.arg2)
      ∷ (text "arg3", uint ev.args.arg3)
      ∷ (text "arg4", uint ev.args.arg4)
      ∷ (text "arg5", uint ev.args.arg5)
      ∷ [];
  ret = ev.ret;
}

module _ {Sysno : Type 0} ⦃e : Eq Sysno⦄ (t : Table Sysno) (g : Globset) (w : Writer) where
  -- Of the sink it reads the registry. A decoder that panics ends the program; the trace line of a failed decoding is not modelled.
  unfoldable pub decode :
      Host → SyscallEvent → Registry t → Result NoError (DecodedCall × Option Category)
  decode h ev registry = elim (decoder t ev.syscall_nr registry) [
    | none ↦ ok (fallback_decoded ev, none)
    | some d ↦ elim (d.decode h (record { pid = ev.pid; args = ev.args; ret = ev.ret })) [
      | ok decoded ↦ ok (decoded, some d.category)
      | err failed ↦ ok (fallback_decoded ev, none)
      | panic ↦ panic
    ]
  ]

  pub record SinkState : Type 0 where
    pub out : w.Out
    pub format : OutputFormat
    pub cfg : w.PrettyConfig
    pub pretty_state : w.PrettyState
    pub registry : Registry t
    pub filter : Filter g
    pub first_err : Option w.Error
    pub closed : Bool

  -- `first_err` is set once.
  unfoldable pub record_error : w.Error → SinkState → SinkState
  record_error failed s = elim (w.kind failed) [
    | broken_pipe ↦ record s { closed = true }
    | other ↦ elim s.first_err [ none ↦ record s { first_err = some failed } | some earlier ↦ s ]
  ]

  -- What the sink keeps of a write: the formatter's state, the output and the failure.
  abbrev pub wrote :
      Result w.Error (Unit {0}) → w.PrettyState → w.Out → SinkState → Result NoError SinkState
  wrote (ok u) st written s = ok (record s { pretty_state = st; out = written })
  wrote (err failed) st written s =
      ok (record_error failed (record s { pretty_state = st; out = written }))
  wrote panic st written s = panic

  -- The raw format is refused before the sink is built: the source panics on it.
  unfoldable pub write_event :
      SyscallEvent → DecodedCall → Option Category → SinkState → Result NoError SinkState
  write_event ev decoded category s = elim s.format [
    | pretty ↦
        let (res, st, written) = w.write_pretty ev decoded category s.cfg s.pretty_state s.out in
        wrote res st written s
    | json ↦
        let (res, written) = w.write_json ev decoded s.out in wrote res s.pretty_state written s
    | raw ↦ panic
  ]

  unfoldable pub handle : Host → SyscallEvent → SinkState → Result NoError SinkState
  handle h ev s =
      if s.closed || is_some s.first_err
      then ok s
      else if not (matches_event g s.filter ev)
      then ok s
      else do
        (decoded, category) ← decode h ev s.registry
        if needs_decode g s.filter && not (matches_decoded g s.filter decoded)
            then ok s
            else write_event ev decoded category s

  -- The calls of `handle` while the tracer runs, each with the memory of its process at the time.
  unfoldable pub handle_all : List (Host × SyscallEvent) → SinkState → Result NoError SinkState
  handle_all [] s = ok s
  handle_all ((h, ev) ∷ evs) s = handle h ev s >>= handle_all evs

  abbrev pub result_of : SinkState → Result w.Error w.Out
  result_of s = elim s.first_err [ some f ↦ err f | none ↦ ok s.out ]

  -- The output is given back with a good result.
  unfoldable pub finish : SinkState → Result w.Error w.Out
  finish s =
      let (failed, flushed) = w.flush s.out in
      let s' = record s { out = flushed } in
      elim failed [ none ↦ result_of s' | some f ↦ result_of (record_error f s') ]
