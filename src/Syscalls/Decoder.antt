-- ===== src/Syscalls/Decoder.antt =====
-- crates/loi-syscalls/src/decoder.rs: the types of decoded calls and the shared helpers.
pub mod Flags
pub mod Fds
use Prim.Native.Nat.{bit_and}
use loi.Prelude.{
  ℕ, zero, suc, ◌^◌, ◌-◌, ◌&&◌, not, Option, none, some, List, [], ◌∷◌, Bool, true, false, leb,
  ◌==◌, if◌then◌else◌,
}
use loi.Prelude.Int.{ℤ, pos, negsuc, bits_of}
use loi.Prelude.Result.{Result, ok, err, panic, ◌>>=◌, ◌>>◌, map_err}
use loi.Prelude.Text.{Text, text}
use loi.Prelude.Word.{Profile, dev, release}
use loi.Core.Regs.{Args}
use loi.Memory.{MemError, Readv, read_cstr}
use loi.Syscalls.Libc.{Libc}
use loi.Syscalls.Utf8.{decode_utf8}

abbrev pub path_max : ℕ
path_max = 4096

pub record DecodeCtx : Type 0 where
  pub pid : ℤ
  pub args : Args
  pub open args use *
  pub ret : ℤ

pub data DecodeError : Type 0 where
  memory : MemError → DecodeError

pub data FdRepr : Type 0 where
  at_fdcwd : FdRepr
  invalid : FdRepr
  num : ℕ → FdRepr

pub data DecodedArg : Type 0 where
  path : Text → DecodedArg
  fd : FdRepr → DecodedArg
  flags : List Text → DecodedArg
  mode : ℕ → DecodedArg
  int : ℤ → DecodedArg
  uint : ℕ → DecodedArg
  bytes : List ℕ → ℕ → DecodedArg
  hex : ℕ → DecodedArg
  ptr : ℕ → DecodedArg
  argv : List Text → DecodedArg

unfoldable pub as_path : DecodedArg → Option Text
as_path (path p) = some p
as_path _ = none

pub record DecodedCall : Type 0 where
  pub args : List (Text × DecodedArg)
  pub ret : ℤ

pub data Category : Type 0 where
  file file_meta memory_map process other : Category

-- What the decoders run on: the build, the kernel's answers to memory reads while one call is
-- decoded, and the constants of `libc`.
pub record Host : Type 0 where
  pub profile : Profile
  pub readv : Readv
  pub libc : Libc

-- The trait `Decoder`. `other` is the default of `category`.
pub record Decoder : Type 0 where
  pub decode : Host → DecodeCtx → Result DecodeError DecodedCall
  pub category : Category

unfoldable pub decode_path : Host → ℤ → ℕ → Result DecodeError Text
decode_path h pid addr = do
  bs ← map_err memory (read_cstr h.profile h.readv pid addr path_max)
  ok (decode_utf8 bs)

-- `debug_assert!(condition)`
abbrev pub debug_assert {ℓ} : {E : Type ℓ} → Profile → Bool → Result E (Unit {0})
debug_assert dev false = panic
debug_assert _ _ = ok tt

-- The three arms for the raw value; -100 is `negsuc 99`. The last is the i32 conversion.
unfoldable pub decode_fd : Profile → ℤ → Result DecodeError FdRepr
decode_fd profile (negsuc n) = ok (if n == 99 then at_fdcwd else invalid)
decode_fd profile (pos n) = do
  debug_assert profile (leb n (2 ^ 31 - 1))
  ok (num (if leb n (2 ^ 31 - 1) then n else 2 ^ 31 - 1))

-- `x as u64` of a c_int: the sign is extended.
unfoldable pub c_int_to_u64 : ℤ → ℕ
c_int_to_u64 x = bits_of (2 ^ 64) x

abbrev pub FlagTable : Type 0
FlagTable = List (ℕ × Text)

-- `mask != 0 && raw & mask == mask`
abbrev pub is_set : ℕ → ℕ → Bool
is_set raw mask = not (mask == 0) && bit_and raw mask == mask

-- `.filter(…).map(…).collect()`
unfoldable pub set_names : ℕ → FlagTable → List Text
set_names raw [] = []
set_names raw ((mask, name) ∷ table) =
    let rest = set_names raw table in if is_set raw mask then name ∷ rest else rest

unfoldable pub decode_flags : ℕ → FlagTable → List Text
unfolding set_names
decode_flags raw table = if raw == 0 then [] else set_names raw table

unfoldable pub prot_table : Libc → FlagTable
prot_table l =
    (c_int_to_u64 l.prot_read, text "PROT_READ")
    ∷ (c_int_to_u64 l.prot_write, text "PROT_WRITE")
    ∷ (c_int_to_u64 l.prot_exec, text "PROT_EXEC")
    ∷ []

unfoldable pub decode_prot : Libc → ℕ → List Text
unfolding decode_flags prot_table c_int_to_u64
decode_prot l raw = if raw == 0 then text "PROT_NONE" ∷ [] else decode_flags raw (prot_table l)
