-- ===== src/Vmexit/Calls/Table/Last.antt =====
-- The last part of the table of system calls in include/syscall_ent.h, from 224 on.
use hv_sebek.Base.{List, [], ◌∷◌, bit_or}
use hv_sebek.Vmexit.Calls.Table.{SyscallEntry, entry, tf, tp, ts, td}

unfoldable pub last_syscalls : List SyscallEntry
last_syscalls =
    entry 0 0 "gettid"
    ∷ entry 3 td "readahead"
    ∷ entry 5 tf "setxattr"
    ∷ entry 5 tf "lsetxattr"
    ∷ entry 5 td "fsetxattr"
    ∷ entry 4 tf "getxattr"
    ∷ entry 4 tf "lgetxattr"
    ∷ entry 4 0 "fgetxattr"
    ∷ entry 3 tf "listxattr"
    ∷ entry 3 tf "llistxattr"
    ∷ entry 3 0 "flistxattr"
    ∷ entry 2 tf "removexattr"
    ∷ entry 2 tf "lremovexattr"
    ∷ entry 2 td "fremovexattr"
    ∷ entry 2 ts "tkill"
    ∷ entry 4 td "sendfile64"
    ∷ entry 6 0 "futex"
    ∷ entry 3 0 "sched_setaffinity"
    ∷ entry 3 0 "sched_getaffinity"
    ∷ entry 1 0 "set_thread_area"
    ∷ entry 1 0 "get_thread_area"
    ∷ entry 2 0 "io_setup"
    ∷ entry 1 0 "io_destroy"
    ∷ entry 5 0 "io_getevents"
    ∷ entry 3 0 "io_submit"
    ∷ entry 3 0 "io_cancel"
    ∷ entry 4 0 "fadvise64"
    ∷ entry 5 0 "SYS_251"
    ∷ entry 1 tp "exit_group"
    ∷ entry 3 0 "lookup_dcookie"
    ∷ entry 1 0 "epoll_create"
    ∷ entry 4 td "epoll_ctl"
    ∷ entry 4 td "epoll_wait"
    ∷ entry 5 0 "remap_file_pages"
    ∷ entry 1 0 "set_tid_address"
    ∷ entry 3 0 "timer_create"
    ∷ entry 4 0 "timer_settime"
    ∷ entry 2 0 "timer_gettime"
    ∷ entry 1 0 "timer_getoverrun"
    ∷ entry 1 0 "timer_delete"
    ∷ entry 2 0 "clock_settime"
    ∷ entry 2 0 "clock_gettime"
    ∷ entry 2 0 "clock_getres"
    ∷ entry 4 0 "clock_nanosleep"
    ∷ entry 3 tf "statfs64"
    ∷ entry 3 td "fstatfs64"
    ∷ entry 3 ts "tgkill"
    ∷ entry 2 tf "utimes"
    ∷ entry 4 0 "fadvise64_64"
    ∷ entry 5 0 "vserver"
    ∷ entry 6 0 "mbind"
    ∷ entry 5 0 "get_mempolicy"
    ∷ entry 3 0 "set_mempolicy"
    ∷ entry 4 0 "mq_open"
    ∷ entry 1 0 "mq_unlink"
    ∷ entry 5 0 "mq_timedsend"
    ∷ entry 5 0 "mq_timedreceive"
    ∷ entry 2 0 "mq_notify"
    ∷ entry 3 0 "mq_getsetattr"
    ∷ entry 5 0 "kexec_load"
    ∷ entry 4 tp "waitid"
    ∷ entry 5 0 "SYS_285"
    ∷ entry 5 0 "add_key"
    ∷ entry 4 0 "request_key"
    ∷ entry 5 0 "keyctl"
    ∷ entry 3 0 "ioprio_set"
    ∷ entry 2 0 "ioprio_get"
    ∷ entry 0 td "inotify_init"
    ∷ entry 3 td "inotify_add_watch"
    ∷ entry 2 td "inotify_rm_watch"
    ∷ entry 4 0 "migrate_pages"
    ∷ entry 4 (bit_or td tf) "openat"
    ∷ entry 3 (bit_or td tf) "mkdirat"
    ∷ entry 4 (bit_or td tf) "mknodat"
    ∷ entry 5 (bit_or td tf) "fchownat"
    ∷ entry 3 (bit_or td tf) "futimesat"
    ∷ entry 4 (bit_or td td) "fstatat64"
    ∷ entry 3 (bit_or td tf) "unlinkat"
    ∷ entry 4 (bit_or td tf) "renameat"
    ∷ entry 5 (bit_or td tf) "linkat"
    ∷ entry 3 (bit_or td tf) "symlinkat"
    ∷ entry 4 (bit_or td tf) "readlinkat"
    ∷ entry 4 (bit_or td tf) "fchmodat"
    ∷ entry 4 (bit_or td tf) "faccessat"
    ∷ entry 6 td "pselect6"
    ∷ entry 4 td "ppoll"
    ∷ entry 1 tp "unshare"
    ∷ entry 2 0 "set_robust_list"
    ∷ entry 3 0 "get_robust_list"
    ∷ entry 6 td "splice"
    ∷ entry 4 td "sync_file_range"
    ∷ entry 4 td "tee"
    ∷ entry 4 td "vmsplice"
    ∷ entry 6 0 "move_pages"
    ∷ entry 3 0 "getcpu"
    ∷ entry 5 td "epoll_pwait"
    ∷ entry 4 (bit_or td tf) "utimensat"
    ∷ entry 3 (bit_or td ts) "signalfd"
    ∷ entry 2 td "timerfd_create"
    ∷ entry 2 td "eventfd"
    ∷ entry 4 tf "fallocate"
    ∷ entry 4 td "timerfd_settime"
    ∷ entry 2 td "timerfd_gettime"
    ∷ entry 0 0 "signalfd4"
    ∷ entry 0 0 "eventfd2"
    ∷ entry 0 0 "epoll_create1"
    ∷ entry 0 0 "dup3"
    ∷ entry 0 0 "pipe2"
    ∷ entry 0 0 "inotify_init1"
    ∷ []
