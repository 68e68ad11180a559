-- ===== src/Core/Tracer/Ending.antt =====
-- How the loop of `run` ends.
use loi.Prelude.{
  ℕ, zero, suc, ◌+◌, ◌≤◌, ◌<◌, ◌≡◌, refl, ◌≢◌, Option, none, true, false, List, [], ◌∷◌, arith, inl,
  inr, is_empty,
}
use native.Mathlib.Decide.{dec_lt}
use loi.Prelude.Map.{Map, find}
use loi.Prelude.Int.{int_eq}
use loi.Prelude.Text.{Text}
use loi.Prelude.Result.{Result, ok, err}
use loi.Core.Types.{
  Pid, echild, Error, ptrace, sigkill, Reply-cases, fails, WaitStatus, exited, signaled, stopped,
  ptrace_event, ptrace_syscall, continued, still_alive,
}
use loi.Core.Tracee.{Tracee}
use loi.Core.Kernel.{Kernel, History, wait_any, wait_for, resume, detach}
use loi.Core.Session.{Session, requested}
use loi.Core.Tracer.{
  handle_syscall_stop, handle_event, handle_signal, handle_status, running, finished,
  Progress-cases, tick, drive, run, drop_requests, drop_tracer,
}

-- How often the tracer has waited.
abbrev pub waits : History → ℕ
waits [] = 0
waits (wait_any ∷ h) = suc (waits h)
waits (_ ∷ h) = waits h

find-empty : (p : Pid) (m : Map Pid Tracee) → is_empty m ≡ true → find p m ≡ none
unfolding find
find-empty p [] h = refl
find-empty p (e ∷ m) h = cc

module _ (k : Kernel) (name : ℕ → Option Text) where
  waits-handle_status :
      (w : WaitStatus) (s : Session) → waits (handle_status k name w s).1.history ≡ waits s.history
  unfolding handle_status handle_syscall_stop handle_event handle_signal
  waits-handle_status (ptrace_syscall p) s = grind arith
  waits-handle_status (ptrace_event p sig evt) s = grind arith
  waits-handle_status (stopped p sig) s = grind arith
  waits-handle_status (exited p code) s = refl
  waits-handle_status (signaled p sig) s = refl
  waits-handle_status (continued p) s = refl
  waits-handle_status still_alive s = refl

  -- A round that goes on has waited once, and was not told that no child is left.
  tick_running :
      (s : Session)
      → (tick k name s).0 ≡ running
      → (waits (tick k name s).1.history ≡ suc (waits s.history))
        × (k.wait_any_reply s.history ≢ fails echild)
  unfolding tick
  tick_running s h = grind (arith, waits-handle_status)

  drive_ends :
      (limit rounds : ℕ) (s : Session)
      → ((h : History) → limit ≤ waits h → k.wait_any_reply h ≡ fails echild)
      → waits s.history ≤ limit
      → limit < waits s.history + rounds
      → (r : Result Error (Unit {0})) × ((drive k name rounds s).0 ≡ finished r)
  unfolding drive
  drive_ends limit zero s gone within enough = absurd (omega arith)
  drive_ends limit (suc rounds) s gone within enough = elim (Progress-cases (tick k name s).0) [
    | inl going ↦
        let (counted, some_left) = tick_running s going in
        let more : waits s.history < limit = elim (dec_lt (waits s.history) limit) [
          | yes lt ↦ lt
          | no ge ↦ absurd (some_left (gone s.history (omega arith)))
        ] in
        rw (going, drive)
          (drive_ends limit rounds (tick k name s).1 gone (omega arith) (omega arith))
    | inr (r, over) ↦ rw (over, drive) (r, refl)
  ]

  -- If the kernel answers that no child is left once the tracer has waited `limit` times, as
  -- `waitpid` does when all have been reaped, then `run`, begun before any wait, returns within
  -- `limit + 1` rounds of its loop.
  pub run_ends :
      (limit : ℕ) (s : Session)
      → ((h : History) → limit ≤ waits h → k.wait_any_reply h ≡ fails echild)
      → waits s.history ≡ 0
      → (r : Result Error (Unit {0})) × ((run k name (suc limit) s).0 ≡ finished r)
  unfolding run
  run_ends limit s gone fresh = elim (Reply-cases (k.resume_reply s.history s.root_pid none)) [
    | inl (u, resumes) ↦
        rw (resumes, run)
          (drive_ends limit (suc limit) (requested (resume s.root_pid none) s) gone (omega arith)
            (omega arith))
    | inr (e, refused) ↦ rw (refused, run) (err (ptrace e), refl)
  ]

  tick_ok :
      (s : Session)
      → (tick k name s).0 ≡ finished (ok tt)
      → find (tick k name s).1.root_pid (tick k name s).1.tracees ≡ none
  unfolding tick
  tick_ok s h = grind (arith, find-empty)

  drive_ok :
      (rounds : ℕ) (s : Session)
      → (drive k name rounds s).0 ≡ finished (ok tt)
      → find (drive k name rounds s).1.root_pid (drive k name rounds s).1.tracees ≡ none
  unfolding drive
  drive_ok zero s h = cc
  drive_ok (suc rounds) s h = ground (arith, tick_ok s, drive_ok rounds (tick k name s).1)

  -- `run` returns with no error only when it tracks the root no longer.
  pub run_ok :
      (rounds : ℕ) (s : Session)
      → (run k name rounds s).0 ≡ finished (ok tt)
      → find (run k name rounds s).1.root_pid (run k name rounds s).1.tracees ≡ none
  unfolding run
  run_ok rounds s h = ground (arith, drive_ok rounds (requested (resume s.root_pid none) s))

-- The processes that the tracer detached from, the latest first.
abbrev pub detached : History → List Pid
detached [] = []
detached (detach p sig ∷ h) = p ∷ detached h
detached (_ ∷ h) = detached h

-- The tracked processes, the last one first, before what was there.
abbrev pub keys_onto : Map Pid Tracee → List Pid → List Pid
keys_onto [] acc = acc
keys_onto ((p, t) ∷ m) acc = keys_onto m (p ∷ acc)

detached-drop_requests :
    (m : Map Pid Tracee) (s : Session)
    → detached (drop_requests m s).history ≡ keys_onto m (detached s.history)
unfolding drop_requests
detached-drop_requests [] s = refl
detached-drop_requests ((p, t) ∷ m) s =
    detached-drop_requests m (requested (wait_for p) (requested (detach p sigkill) s))

-- If the kernel says that no child is left while the root is gone and other processes are still
-- tracked, then the round returns from the loop with no error and with those tracked, and dropping
-- the tracer detaches from each of them once.
pub drop-after-ok :
    (k : Kernel) (name : ℕ → Option Text) (s : Session)
    → is_empty s.tracees ≡ false
    → find s.root_pid s.tracees ≡ none
    → k.wait_any_reply s.history ≡ fails echild
    → ((tick k name s).0 ≡ finished (ok tt))
      × (detached (drop_tracer (tick k name s).1).history
          ≡ keys_onto s.tracees (detached s.history))
unfolding tick drop_tracer
drop-after-ok k name s left root_gone none_left =
    ground (arith, detached-drop_requests s.tracees (requested wait_any s))
