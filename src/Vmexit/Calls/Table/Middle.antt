-- ===== src/Vmexit/Calls/Table/Middle.antt =====
-- The second part of the table of system calls in include/syscall_ent.h, from 112 on.
use hv_sebek.Base.{List, [], ◌∷◌}
use hv_sebek.Vmexit.Calls.Table.{SyscallEntry, entry, tf, tp, ts, td}

unfoldable pub middle_syscalls : List SyscallEntry
middle_syscalls =
    entry 0 0 "idle"
    ∷ entry 1 0 "vm86old"
    ∷ entry 4 tp "wait4"
    ∷ entry 1 0 "swapoff"
    ∷ entry 1 0 "sysinfo"
    ∷ entry 6 0 "ipc"
    ∷ entry 1 td "fsync"
    ∷ entry 1 ts "sigreturn"
    ∷ entry 5 tp "clone"
    ∷ entry 2 0 "setdomainname"
    ∷ entry 1 0 "uname"
    ∷ entry 3 0 "modify_ldt"
    ∷ entry 1 0 "adjtimex"
    ∷ entry 3 0 "mprotect"
    ∷ entry 3 ts "sigprocmask"
    ∷ entry 2 0 "create_module"
    ∷ entry 3 0 "init_module"
    ∷ entry 2 0 "delete_module"
    ∷ entry 1 0 "get_kernel_syms"
    ∷ entry 4 0 "quotactl"
    ∷ entry 1 0 "getpgid"
    ∷ entry 1 td "fchdir"
    ∷ entry 2 0 "bdflush"
    ∷ entry 3 0 "sysfs"
    ∷ entry 1 0 "personality"
    ∷ entry 5 0 "afs_syscall"
    ∷ entry 1 0 "setfsuid"
    ∷ entry 1 0 "setfsgid"
    ∷ entry 5 td "_llseek"
    ∷ entry 3 td "getdents"
    ∷ entry 5 td "_newselect"
    ∷ entry 2 td "flock"
    ∷ entry 3 0 "msync"
    ∷ entry 3 td "readv"
    ∷ entry 3 td "writev"
    ∷ entry 1 0 "getsid"
    ∷ entry 1 td "fdatasync"
    ∷ entry 1 0 "_sysctl"
    ∷ entry 2 0 "mlock"
    ∷ entry 2 0 "munlock"
    ∷ entry 1 0 "mlockall"
    ∷ entry 0 0 "munlockall"
    ∷ entry 2 0 "sched_setparam"
    ∷ entry 2 0 "sched_getparam"
    ∷ entry 3 0 "sched_setscheduler"
    ∷ entry 1 0 "sched_getscheduler"
    ∷ entry 0 0 "sched_yield"
    ∷ entry 1 0 "sched_get_priority_max"
    ∷ entry 1 0 "sched_get_priority_min"
    ∷ entry 2 0 "sched_rr_get_interval"
    ∷ entry 2 0 "nanosleep"
    ∷ entry 4 0 "mremap"
    ∷ entry 3 0 "setresuid"
    ∷ entry 3 0 "getresuid"
    ∷ entry 2 0 "vm86"
    ∷ entry 5 0 "query_module"
    ∷ entry 3 td "poll"
    ∷ entry 3 0 "nfsservctl"
    ∷ entry 3 0 "setresgid"
    ∷ entry 3 0 "getresgid"
    ∷ entry 5 0 "prctl"
    ∷ entry 1 ts "rt_sigreturn"
    ∷ entry 4 ts "rt_sigaction"
    ∷ entry 4 ts "rt_sigprocmask"
    ∷ entry 2 ts "rt_sigpending"
    ∷ entry 4 ts "rt_sigtimedwait"
    ∷ entry 3 ts "rt_sigqueueinfo"
    ∷ entry 2 ts "rt_sigsuspend"
    ∷ entry 4 td "pread64"
    ∷ entry 4 td "pwrite64"
    ∷ entry 3 tf "chown"
    ∷ entry 2 tf "getcwd"
    ∷ entry 2 0 "capget"
    ∷ entry 2 0 "capset"
    ∷ entry 2 ts "sigaltstack"
    ∷ entry 4 td "sendfile"
    ∷ entry 5 0 "getpmsg"
    ∷ entry 5 0 "putpmsg"
    ∷ entry 0 tp "vfork"
    ∷ entry 2 0 "getrlimit"
    ∷ entry 6 0 "mmap2"
    ∷ entry 2 tf "truncate64"
    ∷ entry 2 td "ftruncate64"
    ∷ entry 2 tf "stat64"
    ∷ entry 2 tf "lstat64"
    ∷ entry 2 td "fstat64"
    ∷ entry 3 tf "lchown32"
    ∷ entry 0 0 "getuid32"
    ∷ entry 0 0 "getgid32"
    ∷ entry 0 0 "geteuid32"
    ∷ entry 0 0 "getegid32"
    ∷ entry 2 0 "setreuid32"
    ∷ entry 2 0 "setregid32"
    ∷ entry 2 0 "getgroups32"
    ∷ entry 2 0 "setgroups32"
    ∷ entry 3 td "fchown32"
    ∷ entry 3 0 "setresuid32"
    ∷ entry 3 0 "getresuid32"
    ∷ entry 3 0 "setresgid32"
    ∷ entry 3 0 "getresgid32"
    ∷ entry 3 tf "chown32"
    ∷ entry 1 0 "setuid32"
    ∷ entry 1 0 "setgid32"
    ∷ entry 1 0 "setfsuid32"
    ∷ entry 1 0 "setfsgid32"
    ∷ entry 2 tf "pivot_root"
    ∷ entry 3 0 "mincore"
    ∷ entry 3 0 "madvise"
    ∷ entry 3 td "getdents64"
    ∷ entry 3 td "fcntl64"
    ∷ entry 4 0 "SYS_222"
    ∷ entry 4 0 "SYS_223"
    ∷ []
