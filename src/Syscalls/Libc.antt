-- ===== src/Syscalls/Libc.antt =====
-- The constants of the crate `libc` that the flag tables name. The signed ones have the type `c_int`
-- there, an i32; those of statx masks `c_uint`.
use loi.Prelude.{ℕ}
use loi.Prelude.Int.{ℤ}

pub record Libc : Type 0 where
  pub prot_read : ℤ
  pub prot_write : ℤ
  pub prot_exec : ℤ
  pub o_creat : ℤ
  pub o_excl : ℤ
  pub o_noctty : ℤ
  pub o_trunc : ℤ
  pub o_append : ℤ
  pub o_nonblock : ℤ
  pub o_dsync : ℤ
  pub o_direct : ℤ
  pub o_nofollow : ℤ
  pub o_noatime : ℤ
  pub o_cloexec : ℤ
  pub o_path : ℤ
  pub o_tmpfile : ℤ
  pub o_directory : ℤ
  pub map_shared : ℤ
  pub map_private : ℤ
  pub map_fixed : ℤ
  pub map_anonymous : ℤ
  pub map_noreserve : ℤ
  pub map_stack : ℤ
  pub map_populate : ℤ
  pub map_denywrite : ℤ
  pub map_hugetlb : ℤ
  pub clone_vm : ℤ
  pub clone_fs : ℤ
  pub clone_files : ℤ
  pub clone_sighand : ℤ
  pub clone_pidfd : ℤ
  pub clone_ptrace : ℤ
  pub clone_vfork : ℤ
  pub clone_parent : ℤ
  pub clone_thread : ℤ
  pub clone_newns : ℤ
  pub clone_sysvsem : ℤ
  pub clone_settls : ℤ
  pub clone_parent_settid : ℤ
  pub clone_child_cleartid : ℤ
  pub clone_detached : ℤ
  pub clone_untraced : ℤ
  pub clone_child_settid : ℤ
  pub clone_newcgroup : ℤ
  pub clone_newuts : ℤ
  pub clone_newipc : ℤ
  pub clone_newuser : ℤ
  pub clone_newpid : ℤ
  pub clone_newnet : ℤ
  pub clone_io : ℤ
  pub wnohang : ℤ
  pub wuntraced : ℤ
  pub wcontinued : ℤ
  pub at_empty_path : ℤ
  pub at_no_automount : ℤ
  pub at_symlink_nofollow : ℤ
  pub at_statx_sync_as_stat : ℤ
  pub at_statx_force_sync : ℤ
  pub at_statx_dont_sync : ℤ
  pub statx_type : ℕ
  pub statx_mode : ℕ
  pub statx_nlink : ℕ
  pub statx_uid : ℕ
  pub statx_gid : ℕ
  pub statx_atime : ℕ
  pub statx_mtime : ℕ
  pub statx_ctime : ℕ
  pub statx_ino : ℕ
  pub statx_size : ℕ
  pub statx_blocks : ℕ
  pub statx_basic_stats : ℕ
  pub statx_btime : ℕ
  pub statx_all : ℕ
