-- ===== src/Vmexit/Handlers.antt =====
-- The handlers of exits in kernel/intercept.c on the whole guest, and `handle_vmexit`. What they do
-- to interceptions stands in Intercept and Intercept.Exits.
use hv_sebek.Base.{
  ℕ, ◌+◌, ◌-◌, ◌*◌, ◌%◌, ◌^◌, [], ◌∷◌, ◌==◌, leb, ◌&&◌, not, bit_and, if◌then◌else◌, switch, add64,
  shl64, u16, u32, List, Option, none, some,
}
use hv_sebek.Base.Run.{Run, ok, fatal, fault, ◌>>=◌}
use hv_sebek.Intercept.{
  user_itc_taskswitch, user_itc_iret, user_unpack, skip_intercpt_cur_instr, handle_debug_exception,
  handle_cr3_write,
}
use hv_sebek.Intercept.Exits.{handle_popf, user_enable_intercept, user_disable_intercept}
use hv_sebek.Tracking.{Table, SyscallInfo, vm_get_waiting_syscall, vm_remove_waiting_thread}
use hv_sebek.Tracking.Processes.{
  vm_max_pname_len, vm_add_tracked_process, vm_remove_tracked_process,
}
use hv_sebek.Vmexit.{Vm, Event, Kept, hex, at, outf, no_address, hphysic, read8}
use hv_sebek.Vmexit.Task.{get_cur_threadid, get_cur_process_name}
use hv_sebek.Vmexit.Reports.{print_vmcb_state, print_page_errorcode}
use hv_sebek.Vmexit.Calls.Files.{sys_read_no, sys_open_no, sys_read_iret, sys_open_iret, bytes_from}
use hv_sebek.Vmexit.Calls.Network.{sys_socketcall_no, sys_recvfrom_no, sys_recvfrom_iret}
use hv_sebek.Vmexit.Calls.Dispatch.{Stack, handle_syscall}

-- `__handle_vm_npf`: what stands behind the failure is not reached.
unfoldable pub handle_npf : Vm → Kept → Run (Vm × Kept)
handle_npf vm k = fatal

-- The exception that `__handle_vm_exception` injects, with an error code.
unfoldable pub inject_exception : Vm → Vm
inject_exception vm = record vm {
  eventinj = record vm.eventinj {
    vector = (vm.exitcode - 64) % 2 ^ 8;
    type = 3;
    ev = 1;
    v = 1;
    errorcode = u32 vm.exitinfo1;
  };
}

-- `eventinj.bytes`
unfoldable pub event_bytes : Event → ℕ
event_bytes e =
    e.vector
    + e.type * 2 ^ 8
    + e.ev * 2 ^ 11
    + e.resvd1 * 2 ^ 12
    + e.v * 2 ^ 31
    + e.errorcode * 2 ^ 32

unfoldable pub handle_exception : Vm → Kept → Run (Vm × Kept)
unfolding inject_exception event_bytes
handle_exception vm k =
    let general : Vm → Kept → Run (Vm × Kept) = λ seen k1.
      let injected = inject_exception seen in
      ok (
        injected,
        outf k1 "\n#Exception vector=%x injected into guest, code: %x\n"
            (hex (seen.exitcode - 64) ∷ hex (event_bytes injected.eventinj) ∷ []),
      ) in
    let unpacked =
      not (bit_and vm.exitinfo1 1 == 0)
      && not (bit_and vm.exitinfo1 2 == 0)
      && not (bit_and vm.guest.itc_flag user_unpack == 0) in
    switch vm.exitcode
      ((74, general vm (outf (print_vmcb_state vm k) "TSS invalid!" []))
        ∷ (
          77,
          ok (
            record vm {
              cs = u16 vm.org_sysenter_cs;
              ss = u16 (vm.org_sysenter_cs + 8);
              rsp = vm.sysenter_esp;
              rip = vm.sysenter_eip;
            },
            print_vmcb_state vm k,
          ),
        )
        ∷ (65, ok (record vm { guest = handle_debug_exception vm.guest }, k))
        ∷ (
          78,
          if unpacked
              then ok (
                record vm { guest = skip_intercpt_cur_instr vm.guest user_unpack },
                outf k "USER_UNPACK: guest wrote to %x\n" (hex vm.exitinfo2 ∷ []),
              )
              else general (record vm { cr2 = vm.exitinfo2 }) (print_page_errorcode vm.exitinfo1 k),
        )
        ∷ [])
      (general vm k)

-- `__handle_vm_swint`: the interrupt goes on to the guest, and `int n` has 2 bytes.
unfoldable pub inject_swint : ℕ → Vm → Vm
inject_swint vector vm = record vm {
  eventinj = record vm.eventinj { vector = vector; type = 4; ev = 0; v = 1 };
  rip = add64 vm.rip 2;
}

unfoldable pub handle_swint : ℕ → Stack → Vm → Kept → Run (Vm × Kept)
unfolding inject_swint
handle_swint fuel stack vm k = hphysic vm vm.cs vm.rip >>= λ ipaddr_hp.
    let vector = read8 vm.guest.mem (add64 ipaddr_hp 1) in
    ((if vector == 0x80 then handle_syscall fuel stack vm k else ok (vm, k)) >>= λ (vm', k').
    ok (inject_swint vector vm', k'))

-- The return of the call that a thread waits in.
unfoldable pub syscall_returns : Vm → SyscallInfo → Kept → Run Kept
syscall_returns vm info k =
    switch info.syscallno
      ((0, ok (outf k "syscall return: %x\n" (hex vm.rax ∷ [])))
        ∷ (sys_read_no, sys_read_iret vm info k)
        ∷ (sys_open_no, sys_open_iret vm info k)
        ∷ (
          sys_socketcall_no,
          if info.socketno == sys_recvfrom_no then sys_recvfrom_iret vm info k else ok k,
        )
        ∷ [])
      (ok k)

-- `if (info != NULL)`
unfoldable pub iret_of : Vm → ℕ → Option SyscallInfo → Kept → Run Kept
unfolding syscall_returns
iret_of vm tid none k = ok k
iret_of vm tid (some info) k = syscall_returns vm info k >>= λ k'.
    ok (record k' { syscallmap = vm_remove_waiting_thread k'.syscallmap tid })

-- `if (vm->nWaitingThreads != 0)`
unfoldable pub end_waiting : Vm → Kept → Run Kept
unfolding iret_of
end_waiting vm k =
    let returned =
      (get_cur_threadid vm 0 k >>= λ (k', tid).
      iret_of vm tid (vm_get_waiting_syscall k'.syscallmap tid) k') in
    if k.syscallmap.used == 0 then ok k else returned

unfoldable pub handle_iret : Vm → Kept → Run (Vm × Kept)
unfolding end_waiting
handle_iret vm k = end_waiting vm k >>= λ k'.
    ok (record vm { guest = skip_intercpt_cur_instr vm.guest user_itc_iret }, k')

-- `__handle_popf`
unfoldable pub handle_popf_exit : Vm → Kept → Run (Vm × Kept)
handle_popf_exit vm k = get_cur_process_name vm 0 k >>= λ (k', pname).
    ok (record vm { guest = handle_popf vm.guest }, k')

-- `__handle_vm_wrmsr`, for `MSR_IA32_SYSENTER_CS`; for another register nothing is done.
unfoldable pub handle_wrmsr : Vm → Kept → Run (Vm × Kept)
handle_wrmsr vm k =
    if vm.regs.g_rcx == 0x174
    then ok (
      record vm {
        org_sysenter_cs = add64 (shl64 vm.regs.g_rdx 32) (bit_and vm.rax (2 ^ 32 - 1));
        sysenter_cs = 0;
        rip = add64 vm.rip 2;
      },
      k,
    )
    else ok (vm, outf k "\n\nShould NOT REACH HERE!!!\n\n" [])

-- `user_enable_intercept`, for `flags` as an `int`: the process to be tracked is looked up and
-- handed on, then the flags are kept.
unfoldable pub enable_command : ℕ → Vm → Kept → Run (Vm × Kept)
enable_command flags vm k =
    let enabled = record vm { guest = user_enable_intercept vm.guest flags } in
    let k1 = outf k "User enable taskswitch interception\n" [] in
    let tracking =
      (hphysic vm vm.ds vm.regs.g_rdx >>= λ pname.
      let name = bytes_from vm_max_pname_len vm.guest.mem pname in
      ok (enabled, record k1 { ptracked = vm_add_tracked_process k1.ptracked name })) in
    if bit_and flags user_itc_taskswitch == 0 then ok (enabled, k) else tracking

-- `user_disable_intercept`. A slot has 20 bytes: no more of the name is compared. Where no address
-- is found for the name, it is read at -1.
unfoldable pub disable_command : ℕ → Vm → Kept → Run (Vm × Kept)
disable_command flags vm k =
    let disabled : Table (List ℕ) → Vm =
      λ left. record vm { guest = user_disable_intercept vm.guest flags left.used } in
    let k1 = outf k "User disable taskswitch interception\n" [] in
    let tracking =
      (hphysic vm vm.ds vm.regs.g_rdx >>= λ pname.
      let k2 = outf k1 "remove process from tracking list: %s\n" (at pname ∷ []) in
      let name = bytes_from vm_max_pname_len vm.guest.mem pname in
      let removed =
        (vm_remove_tracked_process k2.ptracked name >>= λ left.
        ok (disabled left, record k2 { ptracked = left })) in
      if pname == no_address then fault else removed) in
    if bit_and flags user_itc_taskswitch == 0 then ok (disabled k.ptracked, k) else tracking

-- `__handle_vm_vmmcall`: `vmmcall` has 3 bytes; the commands are in `rbx`.
unfoldable pub handle_vmmcall : Vm → Kept → Run (Vm × Kept)
unfolding enable_command disable_command
handle_vmmcall vm k =
    let skipped = record vm { rip = add64 vm.rip 3 } in
    let k1 = outf k "GOT A VMMCALL!!! eax = %x, " (hex vm.rax ∷ []) in
    let k2 = outf k1 "ebx = %x, " (hex vm.regs.g_rbx ∷ []) in
    let k3 = outf k2 "ecx = %x, " (hex vm.regs.g_rcx ∷ []) in
    let k4 = outf k3 "edx = %x\n" (hex vm.regs.g_rdx ∷ []) in
    switch vm.regs.g_rbx
      ((0, enable_command (u32 vm.regs.g_rcx) skipped k4)
        ∷ (1, disable_command (u32 vm.regs.g_rcx) skipped k4)
        ∷ [])
      (ok (skipped, k4))

-- The `switch` of `handle_vmexit`.
unfoldable pub dispatch_exit : ℕ → Stack → Vm → Kept → Run (Vm × Kept)
unfolding handle_npf handle_popf_exit
dispatch_exit fuel stack vm k =
    if leb 64 vm.exitcode && leb vm.exitcode 83
    then handle_exception vm k
    else switch vm.exitcode
        ((124, if vm.exitinfo1 == 1 then handle_wrmsr vm k else ok (vm, k))
          ∷ (117, handle_swint fuel stack vm k)
          ∷ (1024, handle_npf vm k)
          ∷ (129, handle_vmmcall vm k)
          ∷ (116, handle_iret vm k)
          ∷ (19, ok (record vm { guest = handle_cr3_write vm.guest }, k))
          ∷ (113, handle_popf_exit vm k)
          ∷ [])
        (ok (vm, k))

unfoldable pub handle_vmexit : ℕ → Stack → Vm → Kept → Run (Vm × Kept)
unfolding dispatch_exit
handle_vmexit fuel stack vm k =
    let k1 = outf k "**** #VMEXIT - exit code: %x\n" (hex (u32 vm.exitcode) ∷ []) in
    dispatch_exit fuel stack vm (print_vmcb_state vm k1)
