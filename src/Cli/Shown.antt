-- ===== src/Cli/Shown.antt =====
-- What a run of the sink writes in the pretty format to a buffer.
use loi.Prelude.{
  ◌≡◌, refl, ap, ◌∙◌, sym, List, [], ◌∷◌, ◌++◌, append_assoc, append-nil, false, All, arith,
}
use loi.Prelude.Tests.{Eq, Bool-cases}
use loi.Prelude.Int.{IsI64}
use loi.Prelude.Result.{ok}
use loi.Prelude.Text.{Text}
use loi.Prelude.Word.{Profile}
use loi.Core.Event.{SyscallEvent}
use loi.Syscalls.Decoder.{Host}
use loi.Syscalls.Registry.{Table}
use loi.Filter.{Globset}
use loi.Output.{Json, ErrnoTable}
use loi.Output.Errno.{is_least}
use loi.Output.Stream.{buffer}
use loi.Output.Style.{Colors}
use loi.Output.JsonLine.{Serde}
use loi.Output.Pretty.{PrettyState, state_new}
use loi.Output.Pretty.Lines.{Call, shown, all_shown}
use loi.Output.Pretty.Refine.{view}
use loi.Output.Pretty.Colored.{write_event-view}
use loi.Cli.{pretty, ErrorKind, Writer, SinkState, write_event, handle_all}
use loi.Cli.Formats.{memory, formats}
use loi.Cli.Stream.{is_stopped, passed, deliver, write_event_pretty, handle_all-deliver}

-- A result that negates without overflow.
abbrev pub Negatable : Call → Type 0
Negatable call = IsI64 call.0.ret × (is_least call.0.ret ≡ false)

-- The calls so far, the latest first.
abbrev pub onto : List Call → List Call → List Call
onto past [] = past
onto past (call ∷ calls) = onto (call ∷ past) calls

module _ {Sysno : Type 0} ⦃e : Eq Sysno⦄ (t : Table Sysno) (g : Globset) (c : Colors) (j : Json)
    (profile : Profile) (table : ErrnoTable) (E : Type 0) (kind_of : E → ErrorKind)
    (serde : Serde (buffer E) j) where
  abbrev pub formatters : Writer
  formatters = formats c j profile table (memory E kind_of) serde

  abbrev pub Sunk : Type 0
  Sunk = SinkState t g formatters

  -- The sink after some calls, with what is in its buffer.
  abbrev pub after : Sunk → List Call → Text → Sunk
  after s past o = record s { pretty_state = view s.cfg past; out = o }

  deliver-all_shown :
      (s : Sunk)
      → s.format ≡ pretty
      → is_stopped t g formatters s ≡ false
      → (calls past : List Call) (o : Text) → All Negatable calls
      → deliver t g formatters calls (after s past o)
        ≡ ok (after s (onto past calls) (o ++ all_shown c table s.cfg past calls))
  deliver-all_shown s pr running [] past o fits = rw (append-nil o) refl
  deliver-all_shown s pr running (call ∷ calls) past o fits =
      let s' = after s past o in
      let line = write_event-view E c profile table s.cfg past call o fits.0.0 fits.0.1 in
      let shown_line = o ++ (shown c table s.cfg past call ++ (10 ∷ [])) in
      let one : write_event t g formatters call.0 call.1 call.2 s'
          ≡ ok (after s (call ∷ past) shown_line) =
        write_event_pretty t g formatters call.0 call.1 call.2 s' pr ∙ rw line refl in
      rw (running, deliver)
        (rw one (
          deliver-all_shown s pr running calls (call ∷ past) shown_line fits.1
          ∙ simp append_assoc refl))

  -- In the pretty format, into a buffer, from a running sink that has shown nothing yet, where no
  -- decoder panics and every result shown negates without overflow: the sink has written the lines
  -- of exactly the calls that the filter lets through, in order, as the description of the columns
  -- and groups gives them.
  pub handle_all_pretty :
      (evs : List (Host × SyscallEvent)) (s : Sunk) (calls : List Call)
      → s.format ≡ pretty
      → is_stopped t g formatters s ≡ false
      → s.pretty_state ≡ state_new
      → passed t g formatters s.registry s.filter evs ≡ ok calls
      → All Negatable calls
      → handle_all t g formatters evs s
        ≡ ok (after s (onto [] calls) (s.out ++ all_shown c table s.cfg [] calls))
  handle_all_pretty evs s calls pr running fresh pass fits =
      let empty : view s.cfg [] ≡ state_new = grind (arith, Bool-cases s.cfg.aligned) in
      let same : s ≡ after s [] s.out =
        ap (λ (st : PrettyState). record s { pretty_state = st }) (fresh ∙ sym empty) in
      let fresh_deliver = ap (deliver t g formatters calls) same in
      handle_all-deliver t g formatters evs s calls pass
      ∙ (fresh_deliver ∙ deliver-all_shown s pr running calls [] s.out fits)
