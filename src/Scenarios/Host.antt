-- ===== src/Scenarios/Host.antt =====
-- A host to decode on: the constants of `libc` on Linux for x86_64, and one mapped page.
use loi.Prelude.Int.{pos, negsuc}
use loi.Prelude.Word.{dev}
use loi.Syscalls.Libc.{Libc}
use loi.Syscalls.Decoder.{DecodeCtx, Host}
use loi.Scenarios.Reading.{one_page, serve}

abbrev pub linux_x86_64 : Libc
linux_x86_64 = record {
  prot_read = pos 0x1;
  prot_write = pos 0x2;
  prot_exec = pos 0x4;
  o_creat = pos 0x40;
  o_excl = pos 0x80;
  o_noctty = pos 0x100;
  o_trunc = pos 0x200;
  o_append = pos 0x400;
  o_nonblock = pos 0x800;
  o_dsync = pos 0x1000;
  o_direct = pos 0x4000;
  o_nofollow = pos 0x20000;
  o_noatime = pos 0x40000;
  o_cloexec = pos 0x80000;
  o_path = pos 0x200000;
  o_tmpfile = pos 0x410000;
  o_directory = pos 0x10000;
  map_shared = pos 0x1;
  map_private = pos 0x2;
  map_fixed = pos 0x10;
  map_anonymous = pos 0x20;
  map_noreserve = pos 0x4000;
  map_stack = pos 0x20000;
  map_populate = pos 0x8000;
  map_denywrite = pos 0x800;
  map_hugetlb = pos 0x40000;
  clone_vm = pos 0x100;
  clone_fs = pos 0x200;
  clone_files = pos 0x400;
  clone_sighand = pos 0x800;
  clone_pidfd = pos 0x1000;
  clone_ptrace = pos 0x2000;
  clone_vfork = pos 0x4000;
  clone_parent = pos 0x8000;
  clone_thread = pos 0x10000;
  clone_newns = pos 0x20000;
  clone_sysvsem = pos 0x40000;
  clone_settls = pos 0x80000;
  clone_parent_settid = pos 0x100000;
  clone_child_cleartid = pos 0x200000;
  clone_detached = pos 0x400000;
  clone_untraced = pos 0x800000;
  clone_child_settid = pos 0x1000000;
  clone_newcgroup = pos 0x2000000;
  clone_newuts = pos 0x4000000;
  clone_newipc = pos 0x8000000;
  clone_newuser = pos 0x10000000;
  clone_newpid = pos 0x20000000;
  clone_newnet = pos 0x40000000;
  clone_io = negsuc 0x7fffffff;
  wnohang = pos 0x1;
  wuntraced = pos 0x2;
  wcontinued = pos 0x8;
  at_empty_path = pos 0x1000;
  at_no_automount = pos 0x800;
  at_symlink_nofollow = pos 0x100;
  at_statx_sync_as_stat = pos 0x0;
  at_statx_force_sync = pos 0x2000;
  at_statx_dont_sync = pos 0x4000;
  statx_type = 0x1;
  statx_mode = 0x2;
  statx_nlink = 0x4;
  statx_uid = 0x8;
  statx_gid = 0x10;
  statx_atime = 0x20;
  statx_mtime = 0x40;
  statx_ctime = 0x80;
  statx_ino = 0x100;
  statx_size = 0x200;
  statx_blocks = 0x400;
  statx_basic_stats = 0x7ff;
  statx_btime = 0x800;
  statx_all = 0xfff;
}

abbrev pub host : Host
host = record { profile = dev; readv = serve one_page; libc = linux_x86_64 }

-- A call on the page: its arguments are the descriptor 3, the page's address and 2 bytes.
abbrev pub call_on_page : DecodeCtx
call_on_page = record {
  pid = pos 7;
  args = record { arg0 = 3; arg1 = 4096; arg2 = 2; arg3 = 0; arg4 = 0; arg5 = 0 };
  ret = pos 2;
}
