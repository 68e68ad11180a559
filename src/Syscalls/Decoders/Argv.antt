-- ===== src/Syscalls/Decoders/Argv.antt =====
-- What the walk over an argument vector gives.
use loi.Prelude.{
  ℕ, zero, suc, ◌+◌, ◌-◌, ◌^◌, ◌<◌, min, ◌≡◌, refl, ◌≢◌, ◌∙◌, List, [], ◌∷◌, ◌++◌, append_assoc,
  append-nil, length, is_empty, if◌then◌else◌, arith,
}
use loi.Prelude.Int.{ℤ}
use loi.Prelude.Result.{ok, err}
use loi.Prelude.Text.{Text}
use loi.Syscalls.Decoder.{DecodeError, Host}
use loi.Syscalls.Decoders.Execve.{
  max_argv, ptr_bytes, sentinel_unreadable, decode_argv_entry, read_ptr_slot, walk, walk_argv,
}

-- The slot after one, which stops at the top of the address space.
abbrev pub next_slot : ℕ → ℕ
next_slot a = min (a + ptr_bytes) (2 ^ 64 - 1)

-- The slot that follows so many strings.
abbrev pub slot_after : ℕ → List Text → ℕ
slot_after a [] = a
slot_after a (s ∷ ss) = slot_after (next_slot a) ss

module _ (h : Host) (pid : ℤ) where
  -- From this slot on the memory holds pointers to these strings.
  abbrev pub Holds : ℕ → List Text → Type 0
  Holds a [] = Unit
  Holds a (s ∷ ss) =
      (p : ℕ) × (read_ptr_slot h pid a ≡ ok p)
      × (p ≢ 0)
      × (decode_argv_entry h pid p ≡ ok s)
      × Holds (next_slot a) ss

  -- One round of the walk over a string.
  walk_one :
      (rounds a : ℕ) (s : Text) (out : List Text) (p : ℕ)
      → read_ptr_slot h pid a ≡ ok p
      → p ≢ 0
      → decode_argv_entry h pid p ≡ ok s
      → walk h pid (suc rounds) a out ≡ walk h pid rounds (next_slot a) (out ++ s ∷ [])
  unfolding walk
  walk_one rounds a s out p slot not_null entry = ground arith

  -- The walk passes over the strings that memory holds, as far as its rounds go.
  walk_over :
      (rounds more a : ℕ) (ss out : List Text)
      → Holds a ss
      → rounds ≡ length ss + more
      → walk h pid rounds a out ≡ walk h pid more (slot_after a ss) (out ++ ss)
  walk_over rounds more a [] out held eq =
      let eq2 : rounds ≡ more = omega arith in rw (eq2, append-nil out) refl
  walk_over zero more a (s ∷ ss) out held eq = absurd (omega arith)
  walk_over (suc rounds) more a (s ∷ ss) out (p, slot, not_null, entry, held) eq =
      walk_one rounds a s out p slot not_null entry
      ∙ walk_over rounds more (next_slot a) ss (out ++ s ∷ []) held (omega arith)
      ∙ (let e = append_assoc out (s ∷ []) ss in ground (arith, e))

  -- The walk passes over fewer strings than its rounds and has a round left.
  walk_argv_over :
      (a : ℕ) (ss : List Text)
      → Holds a ss
      → length ss < max_argv
      → walk_argv h pid a ≡ walk h pid (suc (63 - length ss)) (slot_after a ss) ss
  unfolding walk_argv
  walk_argv_over a ss held few =
      walk_over max_argv (suc (63 - length ss)) a ss [] held (omega arith)

  -- Where a slot cannot be read after fewer than 64 strings, the walk gives the strings before it
  -- and the sentinel for unreadable memory, or the error where there are none.
  pub walk_argv_slot_fails :
      (a : ℕ) (ss : List Text) (e : DecodeError)
      → Holds a ss
      → length ss < max_argv
      → read_ptr_slot h pid (slot_after a ss) ≡ err e
      → walk_argv h pid a ≡ (if is_empty ss then err e else ok (ss ++ sentinel_unreadable ∷ []))
  unfolding walk
  walk_argv_slot_fails a ss e held few fault = walk_argv_over a ss held few ∙ ground arith

  -- Where a string cannot be read after fewer than 64 strings, the walk gives the strings before it
  -- and the sentinel for unreadable memory, also where there are none.
  pub walk_argv_entry_fails :
      (a p : ℕ) (ss : List Text) (e : DecodeError)
      → Holds a ss
      → length ss < max_argv
      → read_ptr_slot h pid (slot_after a ss) ≡ ok p
      → p ≢ 0
      → decode_argv_entry h pid p ≡ err e
      → walk_argv h pid a ≡ ok (ss ++ sentinel_unreadable ∷ [])
  unfolding walk
  walk_argv_entry_fails a p ss e held few slot not_null fault =
      walk_argv_over a ss held few ∙ ground arith
