-- ===== src/UnitTests/Memory.antt =====
-- The unit tests of crates/loi-memory/src/lib.rs but for the one on the text of an error and the one
-- that is ignored.
use loi.Prelude.{
  ℕ, ◌^◌, ◌-◌, ◌≡◌, refl, Bool, true, false, List, [], ◌∷◌, all, length, replicate, ◌==◌,
  if◌then◌else◌,
}
use loi.Prelude.Int.{pos, eq_ℤ}
use loi.Prelude.Result.{Result, err}
use loi.Prelude.Text.{text, text_beq}
use loi.Prelude.Word.{dev}
use loi.Core.Types.{Pid, esrch, fails}
use loi.Memory.{MemError, vm, truncated_cstr, Readv, read_bytes, read_cstr, scan, chunk_size}
use loi.Scenarios.Reading.{serve}
use loi.UnitTests.Support.{is_ok}
use loi.UnitTests.Decoders.{Buffer, address_of, holding, c_string, self_pid, counted}

-- The only process is the one of the tests.
abbrev kernel : List Buffer → Readv
kernel buffers pid a n = if eq_ℤ pid self_pid then serve (holding buffers) pid a n else fails esrch

unfoldable bytes_read : List Buffer → Pid → ℕ → ℕ → Result MemError (List ℕ)
unfolding read_bytes eq_ℤ
bytes_read buffers = read_bytes (kernel buffers)

unfoldable string_read : List Buffer → ℕ → ℕ → Result MemError (List ℕ)
unfolding read_cstr scan chunk_size read_bytes eq_ℤ
string_read buffers = read_cstr dev (kernel buffers) self_pid

abbrev is_esrch : Result MemError (List ℕ) → Bool
is_esrch (err (vm esrch)) = true
is_esrch _ = false

abbrev is_truncated_at : ℕ → Result MemError (List ℕ) → Bool
is_truncated_at n (err (truncated_cstr m)) = m == n
is_truncated_at n _ = false

abbrev read_bytes_against_self_returns_known_bytes : Bool
read_bytes_against_self_returns_known_bytes =
    let buf : Buffer = (3, counted 0 32) in
    is_ok (text_beq buf.1) (bytes_read (buf ∷ []) self_pid (address_of buf) (length buf.1))

abbrev read_bytes_bogus_pid_returns_vm_esrch : Bool
read_bytes_bogus_pid_returns_vm_esrch = is_esrch (bytes_read [] (pos (2 ^ 31 - 1)) 0x1000 4)

abbrev read_cstr_stops_at_nul : Bool
read_cstr_stops_at_nul =
    let cs : Buffer = (3, c_string (text "hello")) in
    is_ok (text_beq (text "hello")) (string_read (cs ∷ []) (address_of cs) 64)

abbrev read_cstr_truncated_returns_error : Bool
read_cstr_truncated_returns_error =
    let bs : Buffer = (3, replicate 32 65) in
    is_truncated_at 16 (string_read (bs ∷ []) (address_of bs) 16)

abbrev suite : List Bool
suite =
    read_bytes_against_self_returns_known_bytes ∷ read_bytes_bogus_pid_returns_vm_esrch
    ∷ read_cstr_stops_at_nul ∷ read_cstr_truncated_returns_error ∷ []

suite_passes : all (λ t. t) suite ≡ true
unfolding bytes_read string_read
suite_passes = refl
