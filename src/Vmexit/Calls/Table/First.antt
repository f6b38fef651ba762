-- ===== src/Vmexit/Calls/Table/First.antt =====
-- The first part of the table of system calls in include/syscall_ent.h, from 0 on.
use hv_sebek.Base.{List, [], ◌∷◌, bit_or}
use hv_sebek.Vmexit.Calls.Table.{SyscallEntry, entry, tf, tp, ts, td}

unfoldable pub first_syscalls : List SyscallEntry
first_syscalls =
    entry 0 0 "restart_syscall"
    ∷ entry 1 tp "exit"
    ∷ entry 0 tp "fork"
    ∷ entry 3 td "read"
    ∷ entry 3 td "write"
    ∷ entry 3 (bit_or td tf) "open"
    ∷ entry 1 td "close"
    ∷ entry 3 tp "waitpid"
    ∷ entry 2 (bit_or td tf) "creat"
    ∷ entry 2 tf "link"
    ∷ entry 1 tf "unlink"
    ∷ entry 3 (bit_or tf tp) "execve"
    ∷ entry 1 tf "chdir"
    ∷ entry 1 0 "time"
    ∷ entry 3 tf "mknod"
    ∷ entry 2 tf "chmod"
    ∷ entry 3 tf "lchown"
    ∷ entry 0 0 "break"
    ∷ entry 2 tf "oldstat"
    ∷ entry 3 td "lseek"
    ∷ entry 0 0 "getpid"
    ∷ entry 5 tf "mount"
    ∷ entry 1 tf "umount"
    ∷ entry 1 0 "setuid"
    ∷ entry 0 0 "getuid"
    ∷ entry 1 0 "stime"
    ∷ entry 4 0 "ptrace"
    ∷ entry 1 0 "alarm"
    ∷ entry 2 td "oldfstat"
    ∷ entry 0 ts "pause"
    ∷ entry 2 tf "utime"
    ∷ entry 2 0 "stty"
    ∷ entry 2 0 "gtty"
    ∷ entry 2 tf "access"
    ∷ entry 1 0 "nice"
    ∷ entry 1 0 "ftime"
    ∷ entry 0 0 "sync"
    ∷ entry 2 ts "kill"
    ∷ entry 2 tf "rename"
    ∷ entry 2 tf "mkdir"
    ∷ entry 1 tf "rmdir"
    ∷ entry 1 td "dup"
    ∷ entry 1 td "pipe"
    ∷ entry 1 0 "times"
    ∷ entry 0 0 "prof"
    ∷ entry 1 0 "brk"
    ∷ entry 1 0 "setgid"
    ∷ entry 0 0 "getgid"
    ∷ entry 2 ts "signal"
    ∷ entry 0 0 "geteuid"
    ∷ entry 0 0 "getegid"
    ∷ entry 1 tf "acct"
    ∷ entry 2 tf "umount2"
    ∷ entry 0 0 "lock"
    ∷ entry 3 td "ioctl"
    ∷ entry 3 td "fcntl"
    ∷ entry 0 0 "mpx"
    ∷ entry 2 0 "setpgid"
    ∷ entry 2 0 "ulimit"
    ∷ entry 1 0 "oldolduname"
    ∷ entry 1 0 "umask"
    ∷ entry 1 tf "chroot"
    ∷ entry 2 0 "ustat"
    ∷ entry 2 td "dup2"
    ∷ entry 0 0 "getppid"
    ∷ entry 0 0 "getpgrp"
    ∷ entry 0 0 "setsid"
    ∷ entry 3 ts "sigaction"
    ∷ entry 0 ts "siggetmask"
    ∷ entry 1 ts "sigsetmask"
    ∷ entry 2 0 "setreuid"
    ∷ entry 2 0 "setregid"
    ∷ entry 1 ts "sigsuspend"
    ∷ entry 1 ts "sigpending"
    ∷ entry 2 0 "sethostname"
    ∷ entry 2 0 "setrlimit"
    ∷ entry 2 0 "getrlimit"
    ∷ entry 2 0 "getrusage"
    ∷ entry 2 0 "gettimeofday"
    ∷ entry 2 0 "settimeofday"
    ∷ entry 2 0 "getgroups"
    ∷ entry 2 0 "setgroups"
    ∷ entry 5 td "select"
    ∷ entry 2 tf "symlink"
    ∷ entry 2 tf "oldlstat"
    ∷ entry 3 tf "readlink"
    ∷ entry 1 tf "uselib"
    ∷ entry 2 tf "swapon"
    ∷ entry 3 0 "reboot"
    ∷ entry 3 td "readdir"
    ∷ entry 6 td "mmap"
    ∷ entry 2 0 "munmap"
    ∷ entry 2 tf "truncate"
    ∷ entry 2 td "ftruncate"
    ∷ entry 2 td "fchmod"
    ∷ entry 3 td "fchown"
    ∷ entry 2 0 "getpriority"
    ∷ entry 3 0 "setpriority"
    ∷ entry 4 0 "profil"
    ∷ entry 2 tf "statfs"
    ∷ entry 2 td "fstatfs"
    ∷ entry 3 0 "ioperm"
    ∷ entry 2 td "socketcall"
    ∷ entry 3 0 "syslog"
    ∷ entry 3 0 "setitimer"
    ∷ entry 2 0 "getitimer"
    ∷ entry 2 tf "stat"
    ∷ entry 2 tf "lstat"
    ∷ entry 2 td "fstat"
    ∷ entry 1 0 "olduname"
    ∷ entry 1 0 "iopl"
    ∷ entry 0 0 "vhangup"
    ∷ []
