-- ===== src/Vmexit/Calls/Dispatch.antt =====
-- `__handle_syscall` of kernel/intercept.c.
use hv_sebek.Base.{
  ℕ, zero, suc, ◌+◌, List, [], ◌∷◌, ◌++◌, ◌==◌, ltb, switch, bit_or, if◌then◌else◌, u32,
}
use hv_sebek.Base.Run.{Run, ok, ◌>>=◌}
use hv_sebek.Intercept.{Guest, intrcpt_iret, x86_rflags_tf}
use hv_sebek.Tracking.{SyscallInfo}
use hv_sebek.Vmexit.{Vm, Registers, Kept, hex, name, outf}
use hv_sebek.Vmexit.Calls.Files.{
  sys_read_no, sys_open_no, wait_in, sys_uselib, sys_open, sys_close, sys_waitpid, sys_link,
  sys_unlink, sys_mmap, sys_munmap, sys_access, sys_lchown, sys_lseek, sys_read, sys_write,
  sys_ioctl, sys_fstat,
}
use hv_sebek.Vmexit.Calls.Network.{sys_socketcall_no, sys_socketcall, sys_execve}
use hv_sebek.Vmexit.Calls.Table.{SyscallEntry, entry_at, sys_nargs, sys_name}
use hv_sebek.Vmexit.Calls.Table.First.{first_syscalls}
use hv_sebek.Vmexit.Calls.Table.Middle.{middle_syscalls}
use hv_sebek.Vmexit.Calls.Table.Last.{last_syscalls}

unfoldable pub syscalls : List SyscallEntry
syscalls = first_syscalls ++ middle_syscalls ++ last_syscalls

-- `switch (i)` over the registers; `arg` keeps its value for another `i`.
unfoldable pub syscall_arg : Registers → ℕ → ℕ → ℕ
syscall_arg r i arg =
    switch i
      ((1, u32 r.g_rbx)
        ∷ (2, u32 r.g_rcx)
        ∷ (3, u32 r.g_rdx)
        ∷ (4, u32 r.g_rsi)
        ∷ (5, u32 r.g_rdi)
        ∷ (6, u32 r.g_rbp)
        ∷ [])
      arg

-- `for (i = 1; i <= sys_nargs; i++)`, over the rounds that are left.
unfoldable pub outf_args : ℕ → Registers → ℕ → ℕ → ℕ → Kept → Kept
unfolding syscall_arg
outf_args zero r nargs i arg k = k
outf_args (suc rounds) r nargs i arg k =
    let arg' = syscall_arg r i arg in
    let k1 = outf k "%x" (hex arg' ∷ []) in
    outf_args rounds r nargs (i + 1) arg' (if ltb i nargs then outf k1 ", " [] else k1)

-- The locals of `__handle_syscall` that are not initialised: `info` and `arg`.
pub record Stack : Type 0 where
  pub info : SyscallInfo
  pub arg : ℕ

-- The cases of `switch (sysCallNo)`, then the `switch` itself.
unfoldable pub syscall_cases : ℕ → Stack → Vm → Kept → List (ℕ × Run Kept)
syscall_cases fuel stack vm k =
    (sys_read_no, sys_read stack.info vm k)
    ∷ (4, sys_write vm k)
    ∷ (sys_open_no, sys_open stack.info vm k)
    ∷ (6, sys_close vm k)
    ∷ (7, sys_waitpid vm k)
    ∷ (9, sys_link vm k)
    ∷ (10, sys_unlink vm k)
    ∷ (11, sys_execve fuel vm k)
    ∷ (16, sys_lchown vm k)
    ∷ (19, sys_lseek vm k)
    ∷ (33, sys_access vm k)
    ∷ (54, sys_ioctl vm k)
    ∷ (86, sys_uselib vm k)
    ∷ (90, sys_mmap vm k)
    ∷ (91, sys_munmap vm k)
    ∷ (sys_socketcall_no, sys_socketcall stack.info vm k)
    ∷ (108, sys_fstat vm k)
    ∷ []

unfoldable pub syscall_handler : ℕ → Stack → ℕ → ℕ → Vm → Kept → Run Kept
unfolding syscall_cases outf_args
syscall_handler fuel stack call nargs vm k =
    switch call (syscall_cases fuel stack vm k) (ok (outf_args nargs vm.regs nargs 1 stack.arg k))

-- Where no thread waits after the handler, the current one does, in call 0.
unfoldable pub wait_anyway : Stack → Vm → Kept → Run Kept
wait_anyway stack vm k =
    if k.syscallmap.used == 0 then wait_in vm (record stack.info { syscallno = 0 }) k else ok k

-- The trap flag is set and `iret` is intercepted.
unfoldable pub trap_return : Guest → Guest
trap_return g = record g {
  rflags = bit_or g.rflags x86_rflags_tf;
  general1_intercepts = bit_or g.general1_intercepts intrcpt_iret;
}

unfoldable pub handle_syscall : ℕ → Stack → Vm → Kept → Run (Vm × Kept)
unfolding trap_return wait_anyway
handle_syscall fuel stack vm k =
    let sys_call_no = u32 vm.rax in
    (entry_at syscalls sys_call_no >>= λ e.
    let k1 = outf k ">> %s( " (name (sys_name e) ∷ []) in
    (syscall_handler fuel stack sys_call_no (sys_nargs e) vm k1 >>= λ k2.
    (wait_anyway stack vm k2 >>= λ k3.
    ok (record vm { guest = trap_return vm.guest }, outf k3 " )\n" []))))
