-- ===== src/Cli/Lines.antt =====
-- What a run of the sink writes in the format JSON.
use loi.Prelude.{◌≡◌, refl, ◌∙◌, Option, List, [], ◌∷◌, false}
use loi.Prelude.Tests.{Eq}
use loi.Prelude.Result.{ok}
use loi.Core.Event.{SyscallEvent}
use loi.Syscalls.Decoder.{Host, DecodedCall, Category}
use loi.Syscalls.Registry.{Table}
use loi.Filter.{Globset}
use loi.Cli.{json, Writer, SinkState, write_event, handle_all}
use loi.Cli.Stream.{is_stopped, passed, deliver, write_event_json, handle_all-deliver}

module _ {Sysno : Type 0} ⦃e : Eq Sysno⦄ (t : Table Sysno) (g : Globset) (w : Writer) where
  -- The lines of these calls, one after another.
  abbrev pub lines : List (SyscallEvent × DecodedCall × Option Category) → w.Out → w.Out
  lines [] o = o
  lines ((ev, decoded, category) ∷ calls) o = lines calls (w.write_json ev decoded o).1

  deliver-lines :
      ((ev : SyscallEvent) (d : DecodedCall) (o : w.Out) → (w.write_json ev d o).0 ≡ ok tt)
      → (calls : List (SyscallEvent × DecodedCall × Option Category)) (s : SinkState t g w)
      → s.format ≡ json
      → is_stopped t g w s ≡ false
      → deliver t g w calls s ≡ ok (record s { out = lines calls s.out })
  deliver-lines reliable [] s js running = refl
  deliver-lines reliable ((ev, d, c) ∷ calls) s js running =
      let s' = record s { out = (w.write_json ev d s.out).1 } in
      let one : write_event t g w ev d c s ≡ ok s' =
        write_event_json t g w ev d c s js ∙ rw (reliable ev d s.out) refl in
      rw (running, deliver) (rw one (deliver-lines reliable calls s' js running))

  -- In the format JSON, from a running sink, where no write fails and no decoder panics, the sink has
  -- written the lines of exactly the calls that the filter lets through, in order, and is otherwise
  -- as before.
  pub handle_all_json :
      ((ev : SyscallEvent) (d : DecodedCall) (o : w.Out) → (w.write_json ev d o).0 ≡ ok tt)
      → (evs : List (Host × SyscallEvent)) (s : SinkState t g w)
        (calls : List (SyscallEvent × DecodedCall × Option Category))
      → s.format ≡ json
      → is_stopped t g w s ≡ false
      → passed t g w s.registry s.filter evs ≡ ok calls
      → handle_all t g w evs s ≡ ok (record s { out = lines calls s.out })
  handle_all_json reliable evs s calls js running pass =
      handle_all-deliver t g w evs s calls pass ∙ deliver-lines reliable calls s js running
