-- ===== src/Core/Session.antt =====
-- A tracer at work (crates/loi-core/src/tracer.rs): `&mut self`, the requests made of the kernel
-- and the events handed to the sink, threaded through the calls. A call of the sink appends its
-- event, so the events are the sequence of calls that the closure given to `run` sees.
use loi.Prelude.{ℕ, ◌-◌, Option, List, [], ◌∷◌, ◌++◌, Bool}
use loi.Prelude.Map.{Map}
use loi.Prelude.Int.{ℤ}
use loi.Prelude.Result.{Result, ok, err, panic}
use loi.Core.Types.{Pid, Signal, Error, ptrace, Reply, done, fails}
use loi.Core.Regs.{UserRegs}
use loi.Core.Tracee.{Tracee}
use loi.Core.Event.{SyscallEvent}
use loi.Core.Kernel.{Kernel, Request, History, resume, get_regs, get_event, read_clock}

pub record Tracer : Type 0 where
  pub root_pid : Pid
  pub tracees : Map Pid Tracee
  pub follow_forks : Bool

pub record Session : Type 0 where
  pub tracer : Tracer
  pub open tracer use *
  pub history : History
  pub events : List SyscallEvent

-- A method that may fail: what was changed before an early return stays changed.
abbrev pub Tracing {ℓ} : Type ℓ → Type ℓ
Tracing A = Session → Result Error A × Session

module _ {ℓ κ} {A : Type ℓ} {B : Type κ} where
  abbrev pub continue : Result Error A → (A → Tracing B) → Tracing B
  continue (ok a) f s = f a s
  continue (err e) f s = (err e, s)
  continue panic f s = (panic, s)

  infixl 5 ◌>>=◌
  abbrev pub ◌>>=◌ : Tracing A → (A → Tracing B) → Tracing B
  ◌>>=◌ m f s = let (r, s') = m s in continue r f s'

infixl 5 ◌>>◌
abbrev pub ◌>>◌ {ℓ} : {B : Type ℓ} → Tracing (Unit {0}) → Tracing B → Tracing B
m >> n = m >>= λ _. n

abbrev pub pure {ℓ} : {A : Type ℓ} → A → Tracing A
pure a s = (ok a, s)

-- `?` on an answer of the kernel: `Error::Ptrace` by `From<nix::Error>`.
abbrev pub answer {ℓ} : {A : Type ℓ} → Reply A → Result Error A
answer (done a) = ok a
answer (fails e) = err (ptrace e)

abbrev pub requested : Request → Session → Session
requested q s = record s { history = q ∷ s.history }

abbrev pub set_tracees : Map Pid Tracee → Session → Session
set_tracees m s = record s { tracer = record s.tracer { tracees = m } }

-- `sink(&event)`
abbrev pub emit : SyscallEvent → Tracing (Unit {0})
emit e s = (ok tt, record s { events = s.events ++ e ∷ [] })

module _ (k : Kernel) where
  -- `ptrace::syscall(pid, signal)?`
  abbrev pub resume_tracee : Pid → Option Signal → Tracing (Unit {0})
  resume_tracee pid sig s =
      (answer (k.resume_reply s.history pid sig), requested (resume pid sig) s)

  -- `ptrace::getregs(pid)?`
  abbrev pub read_regs : Pid → Tracing UserRegs
  read_regs pid s = (answer (k.regs_reply s.history pid), requested (get_regs pid) s)

  -- `ptrace::getevent(pid)?`
  abbrev pub read_event : Pid → Tracing ℤ
  read_event pid s = (answer (k.event_reply s.history pid), requested (get_event pid) s)

  -- `Instant::now()`
  abbrev pub now : Tracing ℕ
  now s = (ok (k.clock_reply s.history), requested read_clock s)

  -- `started_at.elapsed()`, which stops at zero.
  abbrev pub elapsed : ℕ → Tracing ℕ
  elapsed started_at s = (ok (k.clock_reply s.history - started_at), requested read_clock s)
