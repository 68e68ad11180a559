-- ===== src/Syscalls/Registry.antt =====
-- crates/loi-syscalls/src/registry.rs. The table of the crate `syscalls` is a parameter.
pub mod Lookup
pub mod Documented
use loi.Prelude.{ℕ, zero, suc, ◌^◌, ◌-◌, not, Bool, true, false, Option, none, some, List, [], ◌∷◌}
use loi.Prelude.Tests.{Eq}
use loi.Prelude.Int.{ℤ, pos, negsuc, is_neg}
use loi.Prelude.Map.{Map, find, insert}
use loi.Prelude.Result.{NoError, Result, ok, err, panic, ◌>>=◌, ◌>>◌}
use loi.Prelude.Text.{Text}
use loi.Prelude.Word.{Profile}
use loi.Syscalls.Decoder.{Category, Decoder, debug_assert}
use loi.Syscalls.Decoders.Files
use loi.Syscalls.Decoders.Stat
use loi.Syscalls.Decoders.Maps
use loi.Syscalls.Decoders.Processes
use loi.Syscalls.Decoders.Processes.{Arch, x86_64, aarch64}
use loi.Syscalls.Decoders.Execve

-- What the source takes from `syscalls::Sysno`: the conversions and the members that it names.
-- `stat` is a member on x86_64 only.
pub record Table (Sysno : Type 0) : Type 0 where
  pub of_number : ℕ → Option Sysno
  pub name_of : Sysno → Text
  pub id : Sysno → ℤ
  pub openat : Sysno
  pub read : Sysno
  pub write : Sysno
  pub close : Sysno
  pub fstat : Sysno
  pub statx : Sysno
  pub mmap : Sysno
  pub mprotect : Sysno
  pub execve : Sysno
  pub clone : Sysno
  pub wait4 : Sysno
  pub stat : Sysno

module _ {Sysno : Type 0} ⦃e : Eq Sysno⦄ (t : Table Sysno) where
  -- On the architectures that can be traced, every u64 is a usize.
  unfoldable pub sysno_from_nr : ℕ → Option Sysno
  sysno_from_nr nr = t.of_number nr

  unfoldable pub name : ℕ → Option Text
  name nr = elim (sysno_from_nr nr) [ some s ↦ some (t.name_of s) | none ↦ none ]

  abbrev pub Registry : Type 0
  Registry = Map Sysno Decoder

  abbrev pub new : Registry
  new = []

  unfoldable pub register : Profile → ℕ → Decoder → Registry → Result NoError Registry
  register profile nr d r = elim (sysno_from_nr nr) [
    | some s ↦ ok (insert s d r)
    | none ↦ debug_assert profile false >> ok r
  ]

  unfoldable pub decoder : ℕ → Registry → Option Decoder
  decoder nr r = elim (sysno_from_nr nr) [ some s ↦ find s r | none ↦ none ]

  unfoldable pub category : ℕ → Registry → Option Category
  category nr r = elim (decoder nr r) [ some d ↦ some d.category | none ↦ none ]

  unfoldable pub sysno_id_u64 : Profile → Sysno → Result NoError ℕ
  sysno_id_u64 profile s = do
    debug_assert profile (not (is_neg (t.id s)))
    elim (t.id s) [ pos n ↦ ok n | negsuc n ↦ ok (2 ^ 64 - 1) ]

  -- One of the calls of `register` in the constructor.
  unfoldable pub add : Profile → Sysno × Decoder → Registry → Result NoError Registry
  add profile (s, d) r = do nr ← sysno_id_u64 profile s; register profile nr d r

  unfoldable pub add_all : Profile → List (Sysno × Decoder) → Registry → Result NoError Registry
  add_all profile [] r = ok r
  add_all profile (row ∷ rows) r = add profile row r >>= add_all profile rows

  -- The calls of `register`, in the order of the source.
  abbrev pub default_rows : Arch → List (Sysno × Decoder)
  default_rows arch =
      (t.openat, Files.open_at)
      ∷ (t.read, Files.read)
      ∷ (t.write, Files.write)
      ∷ (t.close, Files.close)
      ∷ (t.fstat, Stat.fstat)
      ∷ (t.statx, Stat.statx)
      ∷ (t.mmap, Maps.mmap)
      ∷ (t.mprotect, Maps.mprotect)
      ∷ (t.execve, Execve.execve)
      ∷ (t.clone, Processes.clone arch)
      ∷ (t.wait4, Processes.wait4)
      ∷ elim arch [ x86_64 ↦ (t.stat, Stat.stat) ∷ [] | aarch64 ↦ [] ]

  unfoldable pub with_default_decoders : Profile → Arch → Result NoError Registry
  with_default_decoders profile arch = add_all profile (default_rows arch) new
