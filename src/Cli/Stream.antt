-- ===== src/Cli/Stream.antt =====
-- What a run of the sink over a stream of events hands to its writer.
use loi.Prelude.{
  ◌≡◌, refl, sym, ◌∙◌, ◌||◌, Option, List, [], ◌∷◌, Bool, true, false, if◌then◌else◌, arith, inl,
  inr, ◌⊎◌,
}
use loi.Prelude.Tests.{Eq, Bool-cases, Option-cases}
use loi.Prelude.Result.{
  NoError, Result, ok, err, panic, ◌>>=◌, >>=-eq-ok, ok_injective, Result-cases,
}
use loi.Core.Event.{SyscallEvent}
use loi.Syscalls.Decoder.{Host, DecodedCall, Category}
use loi.Syscalls.Registry.{Table, Registry}
use loi.Filter.{Globset, Filter, matches_event, matches_decoded, needs_decode}
use loi.Cli.{
  pretty, json, raw, Writer, SinkState, decode, record_error, write_event, is_some, handle, wrote,
  handle_all, OutputFormat,
}

pub OutputFormat-cases : (f : OutputFormat) → (f ≡ pretty) ⊎ ((f ≡ json) ⊎ (f ≡ raw))
OutputFormat-cases pretty = inl refl
OutputFormat-cases json = inr (inl refl)
OutputFormat-cases raw = inr (inr refl)

module _ {Sysno : Type 0} ⦃e : Eq Sysno⦄ (t : Table Sysno) (g : Globset) (w : Writer) where
  -- The sink takes no more events.
  abbrev pub is_stopped : SinkState t g w → Bool
  is_stopped s = s.closed || is_some s.first_err

  -- After the reader of the pipe has gone, or a write has failed, nothing more is written, whatever
  -- events come.
  pub handle_all_stopped :
      (evs : List (Host × SyscallEvent)) (s : SinkState t g w)
      → is_stopped s ≡ true
      → handle_all t g w evs s ≡ ok s
  unfolding handle_all handle
  handle_all_stopped [] s stopped = refl
  handle_all_stopped ((h, ev) ∷ evs) s stopped = rw stopped (handle_all_stopped evs s stopped)

  -- What the filter lets through of a stream, with the decoded call, in order.
  abbrev pub passed :
      Registry t
      → Filter g
      → List (Host × SyscallEvent)
      → Result NoError (List (SyscallEvent × DecodedCall × Option Category))
  passed r f [] = ok []
  passed r f ((h, ev) ∷ evs) = elim (matches_event g f ev) [
    | false ↦ passed r f evs
    | true ↦ do
      (decoded, category) ← decode t g w h ev r
      rest ← passed r f evs
      ok (if matches_decoded g f decoded then (ev, decoded, category) ∷ rest else rest)
  ]

  -- A filter that needs no decoded call lets every call pass.
  matches_decoded-needs_decode :
      (f : Filter g) (d : DecodedCall) → needs_decode g f ≡ false → matches_decoded g f d ≡ true
  unfolding needs_decode matches_decoded
  matches_decoded-needs_decode f d eq = grind (arith, Option-cases f.paths)

  -- The calls written one after another, until the sink stops.
  abbrev pub deliver :
      List (SyscallEvent × DecodedCall × Option Category)
      → SinkState t g w
      → Result NoError (SinkState t g w)
  deliver [] s = ok s
  deliver ((ev, decoded, category) ∷ calls) s = elim (is_stopped s) [
    | true ↦ ok s
    | false ↦ write_event t g w ev decoded category s >>= deliver calls
  ]

  deliver_stopped :
      (calls : List (SyscallEvent × DecodedCall × Option Category)) (s : SinkState t g w)
      → is_stopped s ≡ true
      → deliver calls s ≡ ok s
  deliver_stopped [] s stopped = refl
  deliver_stopped (call ∷ calls) s stopped = rw (stopped, deliver) refl

  -- A write in each format.
  pub write_event_json :
      (ev : SyscallEvent) (d : DecodedCall) (c : Option Category) (s : SinkState t g w)
      → s.format ≡ json
      → write_event t g w ev d c s
        ≡ wrote t g w (w.write_json ev d s.out).0 s.pretty_state (w.write_json ev d s.out).1 s
  unfolding write_event
  write_event_json ev d c s js = grind arith

  pub write_event_pretty :
      (ev : SyscallEvent) (d : DecodedCall) (c : Option Category) (s : SinkState t g w)
      → s.format ≡ pretty
      → write_event t g w ev d c s ≡ (
          let (res, st, written) = w.write_pretty ev d c s.cfg s.pretty_state s.out in
          wrote t g w res st written s)
  unfolding write_event
  write_event_pretty ev d c s pr = grind arith

  -- A write changes neither the registry nor the filter.
  abbrev Kept : SinkState t g w → SinkState t g w → Type 0
  Kept s s' = (s'.registry ≡ s.registry) × (s'.filter ≡ s.filter)

  record_error_frame : (f : w.Error) (s : SinkState t g w) → Kept s (record_error t g w f s)
  unfolding record_error
  record_error_frame f s = ground (arith, Option-cases s.first_err)

  wrote_frame :
      (res : Result w.Error (Unit {0})) (st : w.PrettyState) (o : w.Out) (s : SinkState t g w)
      {s' : SinkState t g w}
      → wrote t g w res st o s ≡ ok s'
      → Kept s s'
  wrote_frame (ok u) st o s eq = rw (sym (ok_injective eq)) (refl, refl)
  wrote_frame (err f) st o s eq =
      rw (sym (ok_injective eq)) (record_error_frame f (record s { pretty_state = st; out = o }))
  wrote_frame panic st o s eq = cc

  write_event_frame :
      (ev : SyscallEvent) (d : DecodedCall) (c : Option Category) (s : SinkState t g w)
      {s' : SinkState t g w}
      → write_event t g w ev d c s ≡ ok s'
      → Kept s s'
  unfolding write_event
  write_event_frame ev d c s eq = elim (OutputFormat-cases s.format) [
    | inl f ↦ wrote_frame _ _ _ s (rw (f, write_event) at eq)
    | inr (inl f) ↦ wrote_frame _ _ _ s (rw (f, write_event) at eq)
    | inr (inr f) ↦ (let never = rw (f, write_event) at eq in cc)
  ]

  pub handle_written :
      (h : Host) (ev : SyscallEvent) (s : SinkState t g w) (d : DecodedCall) (c : Option Category)
      → is_stopped s ≡ false
      → matches_event g s.filter ev ≡ true
      → decode t g w h ev s.registry ≡ ok (d, c)
      → handle t g w h ev s
        ≡ (if matches_decoded g s.filter d then write_event t g w ev d c s else ok s)
  unfolding handle
  handle_written h ev s d c running matched decoded =
      let n = matches_decoded-needs_decode s.filter d in
      ground (arith, Bool-cases (needs_decode g s.filter))

  handle_skipped :
      (h : Host) (ev : SyscallEvent) (s : SinkState t g w)
      → is_stopped s ≡ false
      → matches_event g s.filter ev ≡ false
      → handle t g w h ev s ≡ ok s
  unfolding handle
  handle_skipped h ev s running fails = grind arith

  -- Where no decoder panics on what passes, the sink writes the calls that the filter lets through,
  -- in order, until it stops, and ends as the writes do.
  pub handle_all-deliver :
      (evs : List (Host × SyscallEvent)) (s : SinkState t g w)
      (calls : List (SyscallEvent × DecodedCall × Option Category))
      → passed s.registry s.filter evs ≡ ok calls
      → handle_all t g w evs s ≡ deliver calls s
  unfolding handle_all
  handle_all-deliver [] s calls pass = rw (sym (ok_injective pass)) refl
  handle_all-deliver ((h, ev) ∷ evs) s calls pass = elim (Bool-cases (is_stopped s)) [
    | inl stopped ↦
        handle_all_stopped ((h, ev) ∷ evs) s stopped ∙ sym (deliver_stopped calls s stopped)
    | inr running ↦ elim (Bool-cases (matches_event g s.filter ev)) [
      | inr stop ↦
          rw (handle_skipped h ev s running stop) (handle_all-deliver evs s calls (ground arith))
      | inl go ↦
          let chosen = rw (go, passed) at pass in
          let ((d, c), decoded, more) = >>=-eq-ok (decode t g w h ev s.registry) _ chosen in
          let (rest, pass_rest, same) = >>=-eq-ok (passed s.registry s.filter evs) _ more in
          let one = handle_written h ev s d c running go decoded in
          let same_calls = ok_injective same in
          elim (Bool-cases (matches_decoded g s.filter d)) [
            | inr hidden ↦
                rw (one, sym same_calls, hidden) (handle_all-deliver evs s rest pass_rest)
            | inl shown ↦
                rw (one, sym same_calls, shown)
                  (rw (running, deliver)
                    (elim (Result-cases (write_event t g w ev d c s)) [
                      | inl (s', written) ↦
                          let (reg, fil) = write_event_frame ev d c s written in
                          rw written (handle_all-deliver evs s' rest (rw (reg, fil) pass_rest))
                      | inr (inl (f, failed)) ↦ rw failed refl
                      | inr (inr panics) ↦ rw panics refl
                    ]))
          ]
    ]
  ]
