-- ===== src/Core/Regs.antt =====
-- crates/loi-core/src/regs.rs: the system call's number, arguments and result in the registers of
-- the two architectures.
use loi.Prelude.{ℕ}
use loi.Prelude.Int.{ℤ, as_i64}

-- `[u64; 6]`.
pub record Args : Type 0 where
  pub arg0 : ℕ
  pub arg1 : ℕ
  pub arg2 : ℕ
  pub arg3 : ℕ
  pub arg4 : ℕ
  pub arg5 : ℕ

-- The fields of `libc::user_regs_struct` that are read: on x86_64 by name, on aarch64 the array
-- `regs` of 31 words, as the function of its index.
pub record X86Regs : Type 0 where
  pub rax : ℕ
  pub orig_rax : ℕ
  pub rdi : ℕ
  pub rsi : ℕ
  pub rdx : ℕ
  pub r10 : ℕ
  pub r8 : ℕ
  pub r9 : ℕ

-- The definitions under `cfg(target_arch)` are the two cases.
pub data UserRegs : Type 0 where
  x86_64 : X86Regs → UserRegs
  aarch64 : (ℕ → ℕ) → UserRegs

unfoldable pub extract_entry : UserRegs → ℕ × Args
extract_entry (x86_64 r) = (
  r.orig_rax,
  record { arg0 = r.rdi; arg1 = r.rsi; arg2 = r.rdx; arg3 = r.r10; arg4 = r.r8; arg5 = r.r9 },
)
extract_entry (aarch64 regs) = (
  regs 8,
  record {
    arg0 = regs 0;
    arg1 = regs 1;
    arg2 = regs 2;
    arg3 = regs 3;
    arg4 = regs 4;
    arg5 = regs 5;
  },
)

unfoldable pub extract_ret : UserRegs → ℤ
extract_ret (x86_64 r) = as_i64 r.rax
extract_ret (aarch64 regs) = as_i64 (regs 0)
