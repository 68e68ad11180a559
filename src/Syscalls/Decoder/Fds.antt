-- ===== src/Syscalls/Decoder/Fds.antt =====
-- What `decode_fd` makes of a register.
use loi.Prelude.{ℕ, ◌-◌, ◌%◌, ◌^◌, ◌≡◌, ltb, ◌==◌, if◌then◌else◌, arith}
use loi.Prelude.Int.{as_i32}
use loi.Prelude.Result.{ok}
use loi.Prelude.Word.{Profile}
use loi.Syscalls.Decoder.{FdRepr, at_fdcwd, invalid, num, decode_fd}

-- The descriptor in a register, by its low 32 bits.
abbrev pub fd_of_register : ℕ → FdRepr
fd_of_register x =
    let w = x % 2 ^ 32 in
    if ltb w (2 ^ 31) then num w else if w == 2 ^ 32 - 100 then at_fdcwd else invalid

-- Of a register only the low 32 bits count: a value below 2^31 is that descriptor, the bits of -100
-- are AT_FDCWD, all others are invalid. The assertion of a debug build never fails.
pub decode_fd-as_i32 :
    (profile : Profile) (x : ℕ) → decode_fd profile (as_i32 x) ≡ ok (fd_of_register x)
unfolding decode_fd
decode_fd-as_i32 profile x = ground arith
