-- ===== src/Vmexit/Arguments.antt =====
-- The arguments that `__handle_syscall` of kernel/intercept.c reports of a call without a handler,
-- the lists that `sys_execve` reads, and the table of calls.
use hv_sebek.Base.{
  ℕ, zero, suc, ◌≤◌, ◌≡◌, refl, arith, Bool, true, ◌&&◌, List, [], ◌∷◌, ltb, u32, take,
}
use hv_sebek.Base.Run.{ok}
use hv_sebek.Vmexit.{Kept, Registers, hex, outf}
use hv_sebek.Vmexit.Calls.Table.{SyscallEntry, entry_at, sys_nargs}
use hv_sebek.Vmexit.Calls.Table.First.{first_syscalls}
use hv_sebek.Vmexit.Calls.Table.Middle.{middle_syscalls}
use hv_sebek.Vmexit.Calls.Table.Last.{last_syscalls}
use hv_sebek.Vmexit.Calls.Dispatch.{syscalls, syscall_arg, outf_args}

-- The argument registers of Linux, in their order.
abbrev pub registers_of : Registers → List ℕ
registers_of r =
    u32 r.g_rbx ∷ u32 r.g_rcx ∷ u32 r.g_rdx ∷ u32 r.g_rsi ∷ u32 r.g_rdi ∷ u32 r.g_rbp ∷ []

-- The values reported one by one, with commas between them.
unfoldable pub outf_values : List ℕ → Kept → Kept
outf_values [] k = k
outf_values (v ∷ []) k = outf k "%x" (hex v ∷ [])
outf_values (v ∷ w ∷ l) k = outf_values (w ∷ l) (outf (outf k "%x" (hex v ∷ [])) ", " [])

-- A test of every entry of a table.
few_arguments : List SyscallEntry → Bool
few_arguments [] = true
few_arguments (e ∷ l) = ltb (sys_nargs e) 7 && few_arguments l

few_arguments-entry_at :
    (l : List SyscallEntry) (n : ℕ) (e : SyscallEntry)
    → few_arguments l ≡ true
    → entry_at l n ≡ ok e
    → sys_nargs e ≤ 6
unfolding entry_at few_arguments
few_arguments-entry_at [] n e few found = absurd (cc found)
few_arguments-entry_at (a ∷ l) zero e few found = ground arith
few_arguments-entry_at (a ∷ l) (suc n) e few found =
    few_arguments-entry_at l n e (ground (arith, few)) found

syscalls_few : few_arguments syscalls ≡ true
unfolding syscalls first_syscalls middle_syscalls last_syscalls few_arguments
syscalls_few = refl

outf_args_registers :
    (r : Registers) (nargs : ℕ) (arg : ℕ) (k : Kept)
    → nargs ≤ 6
    → outf_args nargs r nargs 1 arg k ≡ outf_values (take nargs (registers_of r)) k
unfolding outf_args syscall_arg outf_values
outf_args_registers r zero arg k few = refl
outf_args_registers r (suc zero) arg k few = refl
outf_args_registers r (suc (suc zero)) arg k few = refl
outf_args_registers r (suc (suc (suc zero))) arg k few = refl
outf_args_registers r (suc (suc (suc (suc zero)))) arg k few = refl
outf_args_registers r (suc (suc (suc (suc (suc zero))))) arg k few = refl
outf_args_registers r (suc (suc (suc (suc (suc (suc zero)))))) arg k few = refl
outf_args_registers r (suc (suc (suc (suc (suc (suc (suc n))))))) arg k few = absurd (omega arith)

-- Of a call in the table without a handler, as many registers are reported as it has arguments, in
-- the order of Linux, whatever the uninitialised local holds: a call has at most six arguments.
pub outf_args-registers :
    (n : ℕ) (e : SyscallEntry) (r : Registers) (arg : ℕ) (k : Kept)
    → entry_at syscalls n ≡ ok e
    → (sys_nargs e ≤ 6)
      × (outf_args (sys_nargs e) r (sys_nargs e) 1 arg k
          ≡ outf_values (take (sys_nargs e) (registers_of r)) k)
outf_args-registers n e r arg k found =
    let few = few_arguments-entry_at syscalls n e syscalls_few found in
    (few, outf_args_registers r (sys_nargs e) arg k few)
