-- ===== src/Vmexit/Calls/Table.antt =====
-- The table of system calls in include/syscall_ent.h: its entries, and how `syscalls` of
-- kernel/intercept.c is read. The children hold its three parts.
pub mod First
pub mod Middle
pub mod Last
use hv_sebek.Base.{ℕ, zero, suc, List, [], ◌∷◌, String}
use hv_sebek.Base.Run.{Run, ok, fault}

-- `struct syscall_entry`: `sys_nargs`, `sys_flags` and `sys_name`.
pub data SyscallEntry : Type 0 where
  entry : ℕ → ℕ → String → SyscallEntry

-- The kinds of system calls in include/intercept.h, TF to TS.
abbrev pub tf : ℕ
tf = 1

abbrev pub ti : ℕ
ti = 2

abbrev pub tn : ℕ
tn = 4

abbrev pub tp : ℕ
tp = 8

abbrev pub ts : ℕ
ts = 16

abbrev pub td : ℕ
td = 32

-- The table is indexed without a test; nothing stands behind its end.
unfoldable pub entry_at : List SyscallEntry → ℕ → Run SyscallEntry
entry_at [] i = fault
entry_at (e ∷ l) zero = ok e
entry_at (e ∷ l) (suc i) = entry_at l i

abbrev pub sys_nargs : SyscallEntry → ℕ
sys_nargs (entry nargs flags name) = nargs

abbrev pub sys_name : SyscallEntry → String
sys_name (entry nargs flags name) = name
