-- ===== src/Scenarios/Reading.antt =====
-- The theorems on reading memory (crates/loi-memory) at one mapped page.
use loi.Prelude.{◌-◌, ◌/◌, ◌^◌, ◌≡◌, refl, ◌≢◌, inl, inr, none, some, ◌==◌, if◌then◌else◌, arith}
use loi.Prelude.Int.{pos}
use loi.Prelude.Result.{ok, panic}
use loi.Prelude.Text.{text}
use loi.Prelude.Word.{dev, release}
use loi.Core.Types.{efault, done, fails}
use loi.Memory.{Readv, read_cstr}
use loi.Memory.Pages.{Memory, load, Serves}
use loi.Memory.Cstr.{find_cstr, read_cstr-eq-find_cstr, read_cstr_stored}
use loi.Memory.Overflow.{read_cstr_no_panic, read_cstr_dev_panics}

-- The page at 4096, full of the letter a but for a terminator in its last byte.
abbrev pub one_page : Memory
one_page a = if a / 4096 == 1 then some (if a == 8191 then 0 else 97) else none

-- A kernel that transfers mapped spans and reports a fault of all others.
abbrev pub serve : Memory → Readv
serve mem pid a n = elim (load mem a n) [ some bs ↦ done bs | none ↦ fails efault ]

one_page-Serves : Serves one_page (serve one_page) (pos 7)
one_page-Serves = record {
  whole = λ a n bs h. rw (h, serve) refl;
  partial = λ a n h. inl (rw (h, serve) refl);
  pages = λ a b h gone. ground arith;
}

read_cstr-eq-find_cstr_example :
    read_cstr dev (serve one_page) (pos 7) 8188 4096 ≡ find_cstr 4096 one_page 8188 4096
read_cstr-eq-find_cstr_example =
    read_cstr-eq-find_cstr dev 4096 one_page (serve one_page) (pos 7) 8188 one_page-Serves
      (omega arith)

read_cstr_stored_example : read_cstr release (serve one_page) (pos 7) 8188 4096 ≡ ok (text "aaa")
read_cstr_stored_example =
    read_cstr_stored release 4096 one_page (serve one_page) (pos 7) 8188 (text "aaa")
      one_page-Serves (omega arith) refl refl (omega arith)

read_cstr_no_panic_example : read_cstr dev (serve one_page) (pos 7) 8188 64 ≢ panic
read_cstr_no_panic_example =
    read_cstr_no_panic (serve one_page) (pos 7) 64 dev 8188 (inr (omega arith))

read_cstr_dev_panics_example : read_cstr dev (serve one_page) (pos 7) (2 ^ 64 - 1) 4096 ≡ panic
read_cstr_dev_panics_example =
    read_cstr_dev_panics (serve one_page) (pos 7) 4096 (2 ^ 64 - 1) (omega arith) (omega arith)
      (omega arith)
