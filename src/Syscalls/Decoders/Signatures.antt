-- ===== src/Syscalls/Decoders/Signatures.antt =====
-- What a decoded call looks like, by the manual pages: the names of its arguments, in order, and
-- the kind of each. It says nothing of how crates/loi-syscalls/src/decoders come to them.
pub mod Chosen
pub mod Conforms
pub mod Clean
use loi.Prelude.{ℕ, ◌^◌, ◌<◌, ◌≤◌, ◌≡◌, List, [], ◌∷◌, ◌++◌, length}
use loi.Prelude.Int.{ℤ}
use loi.Prelude.Result.{ok}
use loi.Prelude.Text.{Text, text}
use loi.Syscalls.Decoder.{
  path, fd, flags, mode, int, uint, bytes, hex, ptr, argv, DecodedArg, DecodedCall, DecodeCtx,
  Decoder, Host,
}
use loi.Syscalls.Decoders.Processes.{Arch, x86_64, aarch64}

-- Some of a list's elements, in its order.
pub data Picks {ℓ} {A : Type ℓ} : List A → List A → Type ℓ where
  none_left : Picks [] []
  picked : (x : A) {xs ys : List A} → Picks xs ys → Picks (x ∷ xs) (x ∷ ys)
  skipped : (y : A) {xs ys : List A} → Picks xs ys → Picks xs (y ∷ ys)

-- A kind of argument. Names of flags are some of those listed, in their order. `status_word` is a
-- word of 32 bits, or the address that it was not read from.
pub data Kind : Type 0 where
  a_path a_fd a_mode an_int a_number a_buffer an_address a_pointer a_vector status_word : Kind
  names_of : List Text → Kind

abbrev pub Fits : DecodedArg → Kind → Type 0
Fits (path p) a_path = Unit
Fits (fd r) a_fd = Unit
Fits (mode m) a_mode = m < 2 ^ 32
Fits (int i) an_int = Unit
Fits (uint n) a_number = Unit
Fits (bytes inline total) a_buffer = length inline ≤ 64
Fits (hex n) an_address = Unit
Fits (ptr n) a_pointer = Unit
Fits (argv entries) a_vector = length entries ≤ 65
Fits (hex n) status_word = Unit
Fits (ptr n) status_word = Unit
Fits (flags names) (names_of listed) = Picks names listed
Fits _ _ = ⊥

abbrev pub Signature : Type 0
Signature = List (Text × Kind)

abbrev pub FitAll : List (Text × DecodedArg) → Signature → Type 0
FitAll [] [] = Unit
FitAll ((name, arg) ∷ args) ((label, kind) ∷ kinds) =
    (name ≡ label) × Fits arg kind × FitAll args kinds
FitAll _ _ = ⊥

-- What a decoder returns has the arguments of the signature and the result of the call.
abbrev pub Conforms : Decoder → Signature → Type 0
Conforms d sig =
    (h : Host) (ctx : DecodeCtx) (call : DecodedCall)
    → d.decode h ctx ≡ ok call
    → FitAll call.args sig × (call.ret ≡ ctx.ret)

abbrev pub access_names : List Text
access_names = text "O_RDONLY" ∷ text "O_WRONLY" ∷ text "O_RDWR" ∷ []

abbrev pub open_names : List Text
open_names =
    text "O_CREAT"
    ∷ text "O_EXCL"
    ∷ text "O_NOCTTY"
    ∷ text "O_TRUNC"
    ∷ text "O_APPEND"
    ∷ text "O_NONBLOCK"
    ∷ text "O_DSYNC"
    ∷ text "O_DIRECT"
    ∷ text "O_NOFOLLOW"
    ∷ text "O_NOATIME"
    ∷ text "O_CLOEXEC"
    ∷ text "O_PATH"
    ∷ text "O_TMPFILE"
    ∷ text "O_DIRECTORY"
    ∷ []

abbrev pub at_names : List Text
at_names =
    text "AT_EMPTY_PATH"
    ∷ text "AT_NO_AUTOMOUNT"
    ∷ text "AT_SYMLINK_NOFOLLOW"
    ∷ text "AT_STATX_SYNC_AS_STAT"
    ∷ text "AT_STATX_FORCE_SYNC"
    ∷ text "AT_STATX_DONT_SYNC"
    ∷ []

abbrev pub statx_names : List Text
statx_names =
    text "STATX_TYPE"
    ∷ text "STATX_MODE"
    ∷ text "STATX_NLINK"
    ∷ text "STATX_UID"
    ∷ text "STATX_GID"
    ∷ text "STATX_ATIME"
    ∷ text "STATX_MTIME"
    ∷ text "STATX_CTIME"
    ∷ text "STATX_INO"
    ∷ text "STATX_SIZE"
    ∷ text "STATX_BLOCKS"
    ∷ text "STATX_BASIC_STATS"
    ∷ text "STATX_BTIME"
    ∷ text "STATX_ALL"
    ∷ []

abbrev pub prot_names : List Text
prot_names = text "PROT_NONE" ∷ text "PROT_READ" ∷ text "PROT_WRITE" ∷ text "PROT_EXEC" ∷ []

abbrev pub map_names : List Text
map_names =
    text "MAP_SHARED"
    ∷ text "MAP_PRIVATE"
    ∷ text "MAP_FIXED"
    ∷ text "MAP_ANONYMOUS"
    ∷ text "MAP_NORESERVE"
    ∷ text "MAP_STACK"
    ∷ text "MAP_POPULATE"
    ∷ text "MAP_DENYWRITE"
    ∷ text "MAP_HUGETLB"
    ∷ []

abbrev pub wait_names : List Text
wait_names = text "WNOHANG" ∷ text "WUNTRACED" ∷ text "WCONTINUED" ∷ []

abbrev pub clone_names : List Text
clone_names =
    text "CLONE_VM"
    ∷ text "CLONE_FS"
    ∷ text "CLONE_FILES"
    ∷ text "CLONE_SIGHAND"
    ∷ text "CLONE_PIDFD"
    ∷ text "CLONE_PTRACE"
    ∷ text "CLONE_VFORK"
    ∷ text "CLONE_PARENT"
    ∷ text "CLONE_THREAD"
    ∷ text "CLONE_NEWNS"
    ∷ text "CLONE_SYSVSEM"
    ∷ text "CLONE_SETTLS"
    ∷ text "CLONE_PARENT_SETTID"
    ∷ text "CLONE_CHILD_CLEARTID"
    ∷ text "CLONE_DETACHED"
    ∷ text "CLONE_UNTRACED"
    ∷ text "CLONE_CHILD_SETTID"
    ∷ text "CLONE_NEWCGROUP"
    ∷ text "CLONE_NEWUTS"
    ∷ text "CLONE_NEWIPC"
    ∷ text "CLONE_NEWUSER"
    ∷ text "CLONE_NEWPID"
    ∷ text "CLONE_NEWNET"
    ∷ text "CLONE_IO"
    ∷ []

-- `int openat(int dirfd, const char *pathname, int flags, mode_t mode)`
abbrev pub of_openat : Signature
of_openat =
    (text "dirfd", a_fd)
    ∷ (text "pathname", a_path)
    ∷ (text "flags", names_of (access_names ++ open_names))
    ∷ (text "mode", a_mode)
    ∷ []

-- `ssize_t read(int fd, void *buf, size_t count)`, and `write`.
abbrev pub of_read_write : Signature
of_read_write = (text "fd", a_fd) ∷ (text "buf", a_buffer) ∷ (text "count", a_number) ∷ []

-- `int close(int fd)`
abbrev pub of_close : Signature
of_close = (text "fd", a_fd) ∷ []

-- `int stat(const char *pathname, struct stat *statbuf)`
abbrev pub of_stat : Signature
of_stat = (text "pathname", a_path) ∷ (text "statbuf", a_pointer) ∷ []

-- `int fstat(int fd, struct stat *statbuf)`
abbrev pub of_fstat : Signature
of_fstat = (text "fd", a_fd) ∷ (text "statbuf", a_pointer) ∷ []

-- `int statx(int dirfd, const char *pathname, int flags, unsigned int mask, struct statx *statxbuf)`
abbrev pub of_statx : Signature
of_statx =
    (text "dirfd", a_fd)
    ∷ (text "pathname", a_path)
    ∷ (text "flags", names_of at_names)
    ∷ (text "mask", names_of statx_names)
    ∷ (text "statbuf", a_pointer)
    ∷ []

-- `void *mmap(void *addr, size_t length, int prot, int flags, int fd, off_t offset)`
abbrev pub of_mmap : Signature
of_mmap =
    (text "addr", an_address)
    ∷ (text "length", a_number)
    ∷ (text "prot", names_of prot_names)
    ∷ (text "flags", names_of map_names)
    ∷ (text "fd", a_fd)
    ∷ (text "offset", an_address)
    ∷ []

-- `int mprotect(void *addr, size_t len, int prot)`
abbrev pub of_mprotect : Signature
of_mprotect =
    (text "addr", an_address) ∷ (text "len", a_number) ∷ (text "prot", names_of prot_names) ∷ []

-- `int execve(const char *pathname, char *const argv[], char *const envp[])`
abbrev pub of_execve : Signature
of_execve = (text "pathname", a_path) ∷ (text "argv", a_vector) ∷ (text "envp", a_pointer) ∷ []

-- The raw system call `clone`, whose last two arguments are swapped between the architectures.
abbrev pub of_clone : Arch → Signature
of_clone arch =
    (text "flags", names_of clone_names)
    ∷ (text "stack", a_pointer)
    ∷ (text "parent_tid", a_pointer)
    ∷ elim arch [
      | x86_64 ↦ (text "child_tid", a_pointer) ∷ (text "tls", a_pointer) ∷ []
      | aarch64 ↦ (text "tls", a_pointer) ∷ (text "child_tid", a_pointer) ∷ []
    ]

-- `pid_t wait4(pid_t pid, int *wstatus, int options, struct rusage *rusage)`
abbrev pub of_wait4 : Signature
of_wait4 =
    (text "pid", an_int)
    ∷ (text "wstatus", status_word)
    ∷ (text "options", names_of wait_names)
    ∷ (text "rusage", a_pointer)
    ∷ []

-- The raw registers, for a call that is not decoded.
abbrev pub of_registers : Signature
of_registers =
    (text "arg0", a_number)
    ∷ (text "arg1", a_number)
    ∷ (text "arg2", a_number)
    ∷ (text "arg3", a_number)
    ∷ (text "arg4", a_number)
    ∷ (text "arg5", a_number)
    ∷ []
