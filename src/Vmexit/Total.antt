-- ===== src/Vmexit/Total.antt =====
-- Which calls of the handlers in kernel/intercept.c return: without physical address extension,
-- address translation always does; a read where it has found no address faults. The children go on
-- with the system calls and the exits.
pub mod Calls
pub mod Exits
use hv_sebek.Base.{
  ℕ, zero, suc, ◌+◌, ◌*◌, ◌^◌, ◌<◌, ◌≡◌, ◌≢◌, refl, sym, ap, subst, arith, true, false, Bool, List,
  [], ◌∷◌, switch, length, ◌==◌, bit_and, Words, Option, none, some, inl, inr, Bool-cases, u32,
  add64,
}
use hv_sebek.Base.Run.{Run, ok, is_ok, is_ok-Returns, Returns, ◌>>=◌}
use hv_sebek.Legacy.{
  x86_cr4_pae, linear2physical_legacy4kb, linear2physical_legacy4mb, linear_2_physical,
  linear2physical_4kb, get_entry4kb, get_index_4kb, through_entry4kb,
}
use hv_sebek.Segment.{glogic_2_hphysic, glogic_2_glinear, descriptor_address, read64}
use hv_sebek.Tracking.{SyscallInfo}
use hv_sebek.Vmexit.{Vm, Kept, no_address, hphysic}
use hv_sebek.Vmexit.Task.{
  get_cur_process_taskstruct, get_cur_process_usermode_taskstruct, taskstruct_of,
  get_cur_process_name, get_cur_threadid,
}
use hv_sebek.Vmexit.Calls.Files.{
  sys_read_no, sys_open_no, wait_in, sys_uselib, sys_open, sys_close, sys_waitpid, sys_link,
  sys_unlink, sys_mmap, sys_munmap, sys_access, sys_lchown, sys_lseek, sys_read, sys_write,
  sys_ioctl, sys_fstat,
}
use hv_sebek.Vmexit.Calls.Network.{
  socket_arg, socket_args, socket_args_from, sys_recvfrom, sys_sendto, sys_socket, sys_bind,
  sys_connect, sys_listen, sys_accept, sys_socketcall, strings_from, sys_execve,
}
use hv_sebek.Vmexit.Calls.Dispatch.{
  Stack, syscall_cases, syscall_handler, handle_syscall, wait_anyway, syscalls,
}
use hv_sebek.Vmexit.Calls.Table.{SyscallEntry, entry_at}
use hv_sebek.Vmexit.Calls.Table.First.{first_syscalls}
use hv_sebek.Vmexit.Calls.Table.Middle.{middle_syscalls}
use hv_sebek.Vmexit.Calls.Table.Last.{last_syscalls}
use hv_sebek.Tracking.{Table, vm_add_fileid2name_map}
use hv_sebek.Tracking.Processes.{remove_tracked_from, vm_remove_tracked_process}
use hv_sebek.Vmexit.Calls.Files.{sys_read_iret, sys_open_iret, bytes_from}
use hv_sebek.Vmexit.Calls.Network.{sys_recvfrom_iret}
use hv_sebek.Vmexit.Handlers.{
  handle_exception, handle_swint, handle_iret, handle_popf_exit, handle_wrmsr, enable_command,
  disable_command, handle_vmmcall, dispatch_exit, handle_vmexit, syscall_returns, iret_of,
  end_waiting,
}

walk4kb-ok : (mem : Words) (table a : ℕ) → is_ok (linear2physical_legacy4kb mem table a) ≡ true
unfolding linear2physical_legacy4kb linear2physical_4kb get_entry4kb get_index_4kb through_entry4kb
walk4kb-ok mem table a = ground arith

walk4mb-ok : (mem : Words) (table a : ℕ) → is_ok (linear2physical_legacy4mb mem table a) ≡ true
unfolding linear2physical_legacy4mb linear2physical_4kb get_entry4kb get_index_4kb through_entry4kb
walk4mb-ok mem table a = ground arith

-- An address is found for one of the guest.
abbrev pub Found : Vm → ℕ → ℕ → Type 0
Found vm seg_select offset = ¬ (hphysic vm seg_select offset ≡ ok no_address)

-- For the `thread_info` of the kernel stack.
abbrev pub StackFound : Vm → Type 0
StackFound vm = Found vm vm.ss (bit_and vm.rsp 0xffffe000)

-- For what the first registers of a system call point to, and for the six arguments of a socket
-- call.
pub record ArgumentsFound (vm : Vm) : Type 0 where
  pub rbx : Found vm vm.ds vm.regs.g_rbx
  pub rcx : Found vm vm.ds vm.regs.g_rcx
  pub words : (offset : ℕ) → offset < 24 → Found vm vm.ds (add64 vm.regs.g_rcx offset)

module _ (vm : Vm) (legacy : bit_and vm.cr4 x86_cr4_pae ≡ 0) where
  pub hphysic-ok : (seg_select offset : ℕ) → is_ok (hphysic vm seg_select offset) ≡ true
  unfolding glogic_2_hphysic glogic_2_glinear descriptor_address linear_2_physical
  hphysic-ok seg_select offset = grind (arith, walk4kb-ok, walk4mb-ok)

  -- In user mode the task is looked up with tests at each step.
  usermode-ok : (mode : ℕ) (k : Kept) → mode ≢ 0 → is_ok (taskstruct_of vm mode k) ≡ true
  unfolding taskstruct_of get_cur_process_usermode_taskstruct
  usermode-ok mode k user = grind (arith, hphysic-ok)

  -- In kernel mode the task is found where its `thread_info` is.
  kernel-ok : (k : Kept) → StackFound vm → is_ok (taskstruct_of vm 0 k) ≡ true
  unfolding taskstruct_of get_cur_process_taskstruct
  kernel-ok k found = grind (arith, hphysic-ok, found)

  pub threadid_kernel-ok : (k : Kept) → StackFound vm → is_ok (get_cur_threadid vm 0 k) ≡ true
  unfolding get_cur_threadid
  threadid_kernel-ok k found = grind (arith, kernel-ok k found)

  pub name-ok : (k : Kept) → StackFound vm → is_ok (get_cur_process_name vm 0 k) ≡ true
  unfolding get_cur_process_name
  name-ok k found = grind (arith, kernel-ok k found)

  threadid-ok : (mode : ℕ) (k : Kept) → mode ≢ 0 → is_ok (get_cur_threadid vm mode k) ≡ true
  unfolding get_cur_threadid
  threadid-ok mode k user = grind (arith, usermode-ok mode k user)

  pub wait-ok : (info : SyscallInfo) (k : Kept) → is_ok (wait_in vm info k) ≡ true
  unfolding wait_in
  wait-ok info k = grind (arith, threadid-ok 3 k (λ e. omega (arith, e)))
