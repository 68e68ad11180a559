-- ===== src/Output/Objects.antt =====
-- What crates/loi-output/src/json.rs writes for a call.
use loi.Prelude.{
  ℕ, ◌^◌, ◌<◌, ◌≡◌, refl, Option, none, some, List, [], ◌∷◌, ◌++◌, append_assoc, map, inl, inr,
  false, arith,
}
use loi.Prelude.Tests.{Option-cases}
use loi.Prelude.Int.{pos, IsI64}
use loi.Prelude.Result.{ok}
use loi.Prelude.Text.{Text, text}
use loi.Prelude.Word.{Profile}
use loi.Core.Event.{SyscallEvent, serialize_duration}
use loi.Syscalls.Decoder.{DecodedCall}
use loi.Output.{Json, ErrnoTable, member, event_to_json}
use loi.Output.Errno.{errno_named, is_least, errno_of_ret_named}
use loi.Output.JsonLine.{Serde, write_event}
use loi.Output.Stream.{buffer}

module _ (j : Json) (table : ErrnoTable) where
  abbrev errno_name : Option (Text × Text) → List (Text × j.Value)
  errno_name none = []
  errno_name (some (symbol, description)) = (text "errno_name", j.string symbol) ∷ []

  -- The object of a call, with the members that the format documents: the name of an errno stands in
  -- it where minus the result is one.
  abbrev pub described : SyscallEvent → DecodedCall → j.Value
  described ev decoded = j.object (
      (text "pid", j.number ev.pid)
      ∷ (text "syscall_nr", j.number (pos ev.syscall_nr))
      ∷ (text "syscall_name", j.string ev.syscall_name)
      ∷ (text "ret", j.number ev.ret)
      ∷ (errno_name (errno_named table ev.ret)
          ++ (text "duration", j.number (pos ev.duration))
            ∷ (text "args", j.array (map (member j) decoded.args))
            ∷ []))

  serialize_duration_fits : (n : ℕ) → n < 2 ^ 64 → serialize_duration n ≡ some n
  unfolding serialize_duration
  serialize_duration_fits n fits = ground arith

  event_to_json-described :
      (profile : Profile) (ev : SyscallEvent) (decoded : DecodedCall)
      → IsI64 ev.ret
      → is_least ev.ret ≡ false
      → ev.duration < 2 ^ 64
      → event_to_json j profile table ev decoded ≡ ok (some (described ev decoded))
  unfolding event_to_json
  event_to_json-described profile ev decoded i64 least fits =
      let time = serialize_duration_fits ev.duration fits in
      let errno = errno_of_ret_named profile table ev.ret i64 least in
      elim (Option-cases (errno_named table ev.ret)) [
        | inl unnamed ↦ rw (time, event_to_json) (rw errno (rw (unnamed, described) refl))
        | inr (named, found) ↦ rw (time, event_to_json) (rw errno (rw (found, described) refl))
      ]

  module _ (E : Type 0) (serde : Serde (buffer E) j) (render : j.Value → Text)
      (renders : (v : j.Value) (o : Text) → serde.to_writer v o ≡ (none, o ++ render v)) where
    -- To a buffer goes the text of the object, and a newline.
    pub write_event-described :
        (profile : Profile) (ev : SyscallEvent) (decoded : DecodedCall) (o : Text)
        → IsI64 ev.ret
        → is_least ev.ret ≡ false
        → ev.duration < 2 ^ 64
        → write_event (buffer E) j serde profile table ev decoded o
          ≡ (ok tt, o ++ (render (described ev decoded) ++ (10 ∷ [])))
    unfolding write_event
    write_event-described profile ev decoded o i64 least fits =
        let object = event_to_json-described profile ev decoded i64 least fits in
        rw (object, write_event) (rw (renders (described ev decoded) o) (simp append_assoc refl))
