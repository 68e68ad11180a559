-- ===== src/Cli/Exit.antt =====
-- How a run of the sink ends.
use loi.Prelude.{◌≡◌, refl, ap, ◌∙◌, inl, inr, Option, none, some, true, false, List, ◌∷◌, arith}
use loi.Prelude.Tests.{Eq, Bool-cases, Option-cases}
use loi.Prelude.Result.{Result, ok, err, panic, ◌>>=◌}
use loi.Core.Event.{SyscallEvent}
use loi.Syscalls.Decoder.{Host, DecodedCall, Category}
use loi.Syscalls.Registry.{Table}
use loi.Filter.{Globset, matches_event, matches_decoded}
use loi.Cli.{
  OutputFormat, pretty, json, raw, other, decode, write_event, handle, broken_pipe, Writer,
  SinkState, record_error, handle_all, finish,
}
use loi.Cli.Stream.{
  OutputFormat-cases, is_stopped, handle_all_stopped, handle_written, write_event_pretty,
  write_event_json,
}

module _ {Sysno : Type 0} ⦃e : Eq Sysno⦄ (t : Table Sysno) (g : Globset) (w : Writer) where
  finish_recorded :
      (evs : List (Host × SyscallEvent)) (s : SinkState t g w) (f : w.Error)
      → s.first_err ≡ some f
      → (handle_all t g w evs s >>= λ s'. ok (finish t g w s')) ≡ ok (err f)
  unfolding finish record_error
  finish_recorded evs s f failed =
      let stopped = handle_all_stopped t g w evs s (grind (arith, Bool-cases s.closed)) in
      let kept : finish t g w s ≡ err f = grind (arith, Option-cases (w.flush s.out).0) in
      rw (stopped, kept) refl

  -- How the format's writer ends for a call, from a sink.
  abbrev pub write_result :
      OutputFormat
      → SyscallEvent
      → DecodedCall
      → Option Category
      → SinkState t g w
      → Result w.Error (Unit {0})
  write_result pretty ev d c s = (w.write_pretty ev d c s.cfg s.pretty_state s.out).0
  write_result json ev d c s = (w.write_json ev d s.out).0
  write_result raw ev d c s = panic

  record_error_first :
      (s : SinkState t g w) (f : w.Error)
      → s.first_err ≡ none
      → w.kind f ≡ other
      → record_error t g w f s ≡ record s { first_err = some f }
  unfolding record_error
  record_error_first s f good kind = grind arith

  -- A failure that is no broken pipe is recorded.
  write_event_failed :
      (ev : SyscallEvent) (d : DecodedCall) (c : Option Category) (s : SinkState t g w)
      (f : w.Error)
      → s.first_err ≡ none
      → write_result s.format ev d c s ≡ err f
      → w.kind f ≡ other
      → (s' : SinkState t g w) × (write_event t g w ev d c s ≡ ok s') × (s'.first_err ≡ some f)
  write_event_failed ev d c s f good failed kind = elim (OutputFormat-cases s.format) [
    | inl pr ↦
        let e = rw (pr, write_result) at failed in
        (
          record s {
            first_err = some f;
            pretty_state = (w.write_pretty ev d c s.cfg s.pretty_state s.out).1;
            out = (w.write_pretty ev d c s.cfg s.pretty_state s.out).2;
          },
          write_event_pretty t g w ev d c s pr ∙ rw e (ap ok (record_error_first _ f good kind)),
          refl,
        )
    | inr (inl js) ↦
        let e = rw (js, write_result) at failed in
        (
          record s { first_err = some f; out = (w.write_json ev d s.out).1 },
          write_event_json t g w ev d c s js ∙ rw e (ap ok (record_error_first _ f good kind)),
          refl,
        )
    | inr (inr no_format) ↦ (let never = rw (no_format, write_result) at failed in cc)
  ]

  -- From a sink that nothing has stopped, where the write of the next call, which the filter lets
  -- through, fails with an error that is not a broken pipe, the run ends with this error, whatever the
  -- sink is handed afterwards and whatever becomes of the last flush.
  pub finish_first_err :
      (h : Host) (ev : SyscallEvent) (evs : List (Host × SyscallEvent)) (s : SinkState t g w)
      (d : DecodedCall) (c : Option Category) (f : w.Error)
      → s.closed ≡ false
      → s.first_err ≡ none
      → matches_event g s.filter ev ≡ true
      → decode t g w h ev s.registry ≡ ok (d, c)
      → matches_decoded g s.filter d ≡ true
      → write_result s.format ev d c s ≡ err f
      → w.kind f ≡ other
      → (handle_all t g w ((h, ev) ∷ evs) s >>= λ s'. ok (finish t g w s')) ≡ ok (err f)
  unfolding handle_all
  finish_first_err h ev evs s d c f connected good matched decoded shown failed kind =
      let running : is_stopped t g w s ≡ false = rw (connected, good) refl in
      let (s', written, recorded) = write_event_failed ev d c s f good failed kind in
      let handled : handle t g w h ev s ≡ ok s' =
        handle_written t g w h ev s d c running matched decoded ∙ rw shown written in
      rw handled (finish_recorded evs s' f recorded)

  -- Where only the pipe broke, before or in the last flush, the run ends well.
  pub finish_broken_pipe :
      (s : SinkState t g w) (f : w.Error)
      → s.first_err ≡ none
      → (w.flush s.out).0 ≡ some f
      → w.kind f ≡ broken_pipe
      → finish t g w s ≡ ok (w.flush s.out).1
  unfolding finish record_error
  finish_broken_pipe s f good flush kind = grind arith
