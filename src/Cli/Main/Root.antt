-- ===== src/Cli/Main/Root.antt =====
-- Whose calls a run of the whole program shows.
use loi.Prelude.{ℕ, ◌≡◌, refl, false, List, [], ◌∷◌, All, arith}
use loi.Prelude.Tests.{Eq}
use loi.Prelude.Int.{ℤ, eq_ℤ_iff}
use loi.Prelude.Result.{ok}
use loi.Core.Kernel.{History}
use loi.Core.Session.{Tracer}
use loi.Core.Tracer.{with_follow_forks, run}
use loi.Core.Tracer.Emission.{IsReportable, Reports, run-Reports}
use loi.Core.Spawn.Ready.{begin}
use loi.Syscalls.Registry.{Table, Registry, name}
use loi.Filter.{Globset, Filter}
use loi.Output.Pretty.Lines.{Call}
use loi.Cli.{Writer}
use loi.Cli.Passed.{passed-All}
use loi.Cli.Stream.{passed}
use loi.Cli.Main.{Cli, Machine, observed}

module _ {Sysno : Type 0} ⦃e : Eq Sysno⦄ (t : Table Sysno) (g : Globset) (w : Writer) where
  reportable-root :
      (root : ℤ) (calls : List Call)
      → All (λ call. IsReportable root false call.0) calls
      → All (λ call. call.0.pid ≡ root) calls
  reportable-root root [] h = tt
  reportable-root root (call ∷ calls) (here, h) =
      (let is_root = eq_ℤ_iff call.0.pid root in ground arith, reportable-root root calls h)

  -- Without the option to follow forks, every call that the filter lets through of a run is one of the
  -- root, whatever the kernel reports of other processes, and however the run ends.
  pub shows_root_only :
      (m : Machine) (rounds : ℕ) (cli : Cli) (registry : Registry t) (filter : Filter g)
      (tracer : Tracer) (history : History) (calls : List Call)
      → cli.follow_forks ≡ false
      → passed t g w registry filter (
          observed m.memory 0
            (run m.kernel
              (name t)
              rounds
              (begin (with_follow_forks cli.follow_forks tracer) history)).1.events)
        ≡ ok calls
      → All (λ call. call.0.pid ≡ tracer.root_pid) calls
  unfolding with_follow_forks
  shows_root_only m rounds cli registry filter tracer history calls alone pass =
      let s = begin (with_follow_forks cli.follow_forks tracer) history in
      let start : Reports tracer.root_pid false s = record {
        same_root = refl;
        same_follow = alone;
        reportable = tt;
      } in
      let reports = run-Reports m.kernel (name t) tracer.root_pid false rounds s start in
      reportable-root tracer.root_pid calls (
        passed-All t g w registry filter (IsReportable tracer.root_pid false)
          (λ call. IsReportable tracer.root_pid false call.0) (λ h ev d c here decoded. here)
          m.memory 0 _ calls reports.reportable pass)
