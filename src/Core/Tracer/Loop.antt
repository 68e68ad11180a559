-- ===== src/Core/Tracer/Loop.antt =====
-- Induction over the rounds of the loop of `run`.
use loi.Prelude.{ℕ, zero, suc, Option, inl, inr}
use loi.Prelude.Text.{Text}
use loi.Core.Kernel.{Kernel}
use loi.Core.Session.{Session}
use loi.Core.Tracer.{tick, drive, Progress-cases}

-- What every round keeps holds after any number of rounds.
pub drive_induction :
    (k : Kernel) (name : ℕ → Option Text) (P : Session → Type 0)
    → ((s : Session) → P s → P (tick k name s).1)
    → (rounds : ℕ) (s : Session) → P s
    → P (drive k name rounds s).1
unfolding drive
drive_induction k name P keep zero s h = h
drive_induction k name P keep (suc rounds) s h = elim (Progress-cases (tick k name s).0) [
  | inl going ↦
      rw (going, drive) (drive_induction k name P keep rounds (tick k name s).1 (keep s h))
  | inr (r, over) ↦ rw (over, drive) (keep s h)
]
