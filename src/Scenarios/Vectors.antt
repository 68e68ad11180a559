-- ===== src/Scenarios/Vectors.antt =====
-- The theorems on the walk over an argument vector (execve) at small vectors.
use loi.Prelude.{◌/◌, ◌≡◌, refl, ◌||◌, none, some, [], ◌∷◌, replicate, ◌==◌, if◌then◌else◌, arith}
use loi.Prelude.Int.{pos}
use loi.Prelude.Result.{ok}
use loi.Prelude.Text.{text}
use loi.Core.Types.{efault, done}
use loi.Memory.{vm, read_bytes, read_cstr, scan, chunk_size}
use loi.Memory.Pages.{Memory}
use loi.Syscalls.Decoder.{memory, Host}
use loi.Syscalls.Decoders.Execve.{decode_argv_entry, read_ptr_slot, walk_argv}
use loi.Syscalls.Decoders.Argv.{walk_argv_entry_fails}
use loi.Scenarios.Host.{host}
use loi.Scenarios.Reading.{serve}

-- One page. Its first slot and its last one point to the string a at 4112, and the slot at 4200
-- points to 0x20000, which is not mapped.
abbrev vectors : Memory
vectors a =
    if a / 4096 == 1
    then some (
        if a == 4096 || (a == 4097 || (a == 8184 || a == 8185))
        then 16
        else if a == 4112
        then 97
        else if a == 4202
        then 2
        else 0)
    else none

abbrev vector_host : Host
vector_host = record host { readv = serve vectors }

walk_argv_entry_fails_example : walk_argv vector_host (pos 7) 4200 ≡ ok (text "<unreadable>" ∷ [])
unfolding read_ptr_slot read_bytes decode_argv_entry read_cstr scan chunk_size
walk_argv_entry_fails_example =
    walk_argv_entry_fails vector_host (pos 7) 4200 0x20000 [] (memory (vm efault)) tt (omega arith)
      refl (λ e. omega arith) refl

-- A kernel that has a pointer to 16 in every slot and the empty string everywhere else.
abbrev endless_host : Host
endless_host = record host {
  readv = λ pid a n. done (if n == 8 then 16 ∷ replicate 7 0 else replicate n 0);
}
