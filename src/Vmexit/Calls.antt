-- ===== src/Vmexit/Calls.antt =====
-- The system calls that the guest makes by `int 0x80`: `__handle_syscall` of kernel/intercept.c over
-- the table of include/syscall_ent.h and the handlers of the children.
pub mod Files
pub mod Network
pub mod Table
pub mod Dispatch
