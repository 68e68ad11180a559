-- ===== src/Cli/Passed.antt =====
-- What holds of every call that the filter lets through of a run.
use loi.Prelude.{ℕ, suc, ◌≡◌, sym, inl, inr, Option, List, [], ◌∷◌, All}
use loi.Prelude.Tests.{Eq, Bool-cases}
use loi.Prelude.Result.{ok, >>=-eq-ok, ok_injective}
use loi.Core.Event.{SyscallEvent}
use loi.Syscalls.Decoder.{Host, DecodedCall, Category}
use loi.Syscalls.Registry.{Table, Registry}
use loi.Filter.{Globset, Filter, matches_event, matches_decoded}
use loi.Output.Pretty.Lines.{Call}
use loi.Cli.{Writer, decode}
use loi.Cli.Stream.{passed}
use loi.Cli.Main.{observed}

module _ {Sysno : Type 0} ⦃e : Eq Sysno⦄ (t : Table Sysno) (g : Globset) (w : Writer)
    (r : Registry t) (f : Filter g) (P : SyscallEvent → Type 0) (Q : Call → Type 0)
    (shows : (h : Host) (ev : SyscallEvent) (d : DecodedCall) (c : Option Category)
      → P ev
      → decode t g w h ev r ≡ ok (d, c)
      → Q (ev, d, c)) where
  -- What the decoding of the events gives holds of the calls that are let through.
  pub passed-All :
      (hosts : ℕ → Host) (n : ℕ) (evs : List SyscallEvent) (calls : List Call)
      → All P evs
      → passed t g w r f (observed hosts n evs) ≡ ok calls
      → All Q calls
  passed-All hosts n [] calls h pass = rw (sym (ok_injective pass)) tt
  passed-All hosts n (ev ∷ evs) calls (here, h) pass = elim (Bool-cases (matches_event g f ev)) [
    | inr stop ↦ passed-All hosts (suc n) evs calls h (rw (stop, passed) at pass)
    | inl go ↦
        let chosen = rw (go, passed) at pass in
        let ((d, c), decoded, more) = >>=-eq-ok (decode t g w (hosts n) ev r) _ chosen in
        let (rest, pass_rest, same) =
          >>=-eq-ok (passed t g w r f (observed hosts (suc n) evs)) _ more in
        let same_calls = ok_injective same in
        let ih = passed-All hosts (suc n) evs rest h pass_rest in
        elim (Bool-cases (matches_decoded g f d)) [
          | inl shown ↦ rw (sym same_calls, shown) (shows (hosts n) ev d c here decoded, ih)
          | inr hidden ↦ rw (sym same_calls, hidden) ih
        ]
  ]
