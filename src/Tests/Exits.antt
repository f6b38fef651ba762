-- ===== src/Tests/Exits.antt =====
-- The exits of the guest in kernel/intercept.c at concrete inputs.
use hv_sebek.Base.{
  ◌^◌, ◌≡◌, ◌<◌, ◌≤◌, refl, arith, [], ◌∷◌, ◌++◌, none, take, Words, add64, ◌==◌, if◌then◌else◌,
}
use hv_sebek.Base.Bits.{bit}
use hv_sebek.Base.Run.{ok}
use hv_sebek.Intercept.{handle_cr3_write}
use hv_sebek.Legacy.{linear_2_physical}
use hv_sebek.Segment.{glogic_2_hphysic, glogic_2_glinear, read64}
use hv_sebek.Tracking.{SyscallInfo, vm_get_fname_from_id, vm_get_waiting_syscall, find_from}
use hv_sebek.Vmexit.{Vm, Kept, outf, hex, text, name, no_address, hphysic}
use hv_sebek.Vmexit.Task.{
  get_cur_threadid, taskstruct_of, get_cur_process_taskstruct, get_cur_process_usermode_taskstruct,
}
use hv_sebek.Vmexit.Reports.{print_vmcb_state}
use hv_sebek.Vmexit.Calls.Files.{bytes_from}
use hv_sebek.Vmexit.Calls.Network.{sys_execve}
use hv_sebek.Vmexit.Calls.Table.{entry, entry_at}
use hv_sebek.Vmexit.Calls.Table.First.{first_syscalls}
use hv_sebek.Vmexit.Calls.Dispatch.{Stack, syscalls, outf_args, trap_return, handle_syscall}
use hv_sebek.Vmexit.Handlers.{handle_vmexit, dispatch_exit, handle_exception, handle_iret}
use hv_sebek.Vmexit.Pending.{handle_vmexit-IsPending}
use hv_sebek.Vmexit.Events.{stays_in_host, exception_event, handle_exception-event}
use hv_sebek.Vmexit.Sysenter.{handle_vmexit-wrmsr}
use hv_sebek.Vmexit.Opened.{sys_open-close}
use hv_sebek.Vmexit.Commands.{CarriedOut, handle_vmexit-enable}
use hv_sebek.Vmexit.Arguments.{registers_of, outf_values, outf_args-registers}
use hv_sebek.Vmexit.Total.Calls.{sys_execve-Returns}

-- A guest in real mode. The thread that is found has number 7; at 0x2010 stands `int 0x80`.
abbrev memory : Words
memory = λ address. if address == 0x2011 then 0x80 else 7

abbrev real_mode : Vm
real_mode = record {
  guest = record {
    cr_intercepts = 0;
    exception_intercepts = 0;
    general1_intercepts = 0;
    rflags = 2;
    cr3 = 0;
    mem = memory;
    itc_flag = 0;
    itc_skip_flag = 0;
    btrackcurrent = 0;
  };
  regs = record { g_rbx = 3; g_rcx = 5; g_rdx = 9; g_rsi = 0; g_rdi = 0; g_rbp = 0 };
  eventinj = record { vector = 0; type = 0; ev = 0; resvd1 = 0; v = 0; errorcode = 0 };
  cr0 = 0;
  cr2 = 0;
  cr4 = 0;
  efer = 2 ^ 12;
  cpl = 0;
  gdtr_base = 0;
  cs = 0x200;
  ss = 0x300;
  ds = 0x400;
  tr = 0x500;
  rax = 8;
  rip = 0x10;
  rsp = 0x4000;
  exitcode = 117;
  exitinfo1 = 0;
  exitinfo2 = 0;
  sysenter_cs = 0;
  sysenter_esp = 0x9000;
  sysenter_eip = 0xa000;
  org_sysenter_cs = 0;
}

abbrev uninitialised : SyscallInfo
uninitialised = record { syscallno = 1; arg = 2; datasize = 3; socketno = 4 }

abbrev locals : Stack
locals = record { info = uninitialised; arg = 6 }

abbrev nothing_kept : Kept
nothing_kept = record {
  fmap = record { row = λ i. record { fid = 0; fname = [] }; used = 0 };
  syscallmap = record { row = λ i. record { tid = 0; info = uninitialised }; used = 0 };
  ptracked = record { row = λ i. []; used = 0 };
  log = [];
}

abbrev writes_cr3 : Vm
writes_cr3 = record real_mode { exitcode = 19 }

abbrev stepping : Vm
stepping = record writes_cr3 {
  guest = record writes_cr3.guest {
    cr_intercepts = 0;
    exception_intercepts = 2;
    general1_intercepts = 2 ^ 17;
    rflags = 0x102;
    itc_skip_flag = 2;
  };
}

abbrev told : Kept
told = outf nothing_kept "**** #VMEXIT - exit code: %x\n" (hex 19 ∷ [])

handled :
    handle_vmexit 0 locals writes_cr3 nothing_kept ≡ ok (stepping, print_vmcb_state writes_cr3 told)
unfolding handle_vmexit dispatch_exit handle_cr3_write
handled = refl

handle_vmexit-IsPending_example :
    (bit stepping.guest.exception_intercepts 1 ≡ 1) × (bit stepping.guest.rflags 8 ≡ 1)
handle_vmexit-IsPending_example =
    handle_vmexit-IsPending 0 locals writes_cr3 stepping nothing_kept
      (print_vmcb_state writes_cr3 told) (record { steps = λ ne. absurd (ne refl) }) handled
      (λ e. omega (arith, e))

abbrev divides : Vm
divides = record real_mode { exitcode = 64 }

handle_exception-event_example :
    (vm' : Vm) × (k' : Kept) × (handle_exception divides nothing_kept ≡ ok (vm', k'))
    × (vm'.eventinj ≡ (if stays_in_host divides then divides.eventinj else exception_event divides))
    × ((exception_event divides).vector < 20)
handle_exception-event_example =
    handle_exception-event divides nothing_kept (omega arith) (omega arith)

abbrev writes_msr : Vm
writes_msr = record real_mode {
  exitcode = 124;
  exitinfo1 = 1;
  rax = 0x60;
  regs = record real_mode.regs { g_rcx = 0x174 };
}

abbrev to_fault : Vm → Vm
to_fault v = record v { exitcode = 77; rip = 0x20 }

handle_vmexit-wrmsr_example :
    (vm1 : Vm) × (k1 : Kept) × (vm3 : Vm) × (k3 : Kept) × (handle_vmexit 0 locals writes_msr
        nothing_kept
      ≡ ok (vm1, k1))
    × (vm1.sysenter_cs ≡ 0)
    × (vm1.rip ≡ 0x12)
    × (handle_vmexit 0 locals (to_fault vm1) k1 ≡ ok (vm3, k3))
    × (vm3.cs ≡ 0x60)
    × (vm3.ss ≡ 0x68)
    × (vm3.rsp ≡ (to_fault vm1).sysenter_esp)
    × (vm3.rip ≡ (to_fault vm1).sysenter_eip)
handle_vmexit-wrmsr_example =
    handle_vmexit-wrmsr to_fault (λ v. refl) (λ v. refl) 0 locals writes_msr nothing_kept refl refl
      refl

kernel_thread : (k : Kept) → get_cur_threadid real_mode 0 k ≡ ok (k, 7)
unfolding get_cur_threadid taskstruct_of get_cur_process_taskstruct glogic_2_hphysic
    glogic_2_glinear linear_2_physical read64
kernel_thread k = refl

name_address : hphysic real_mode 0x400 3 ≡ ok 0x4003
unfolding glogic_2_hphysic glogic_2_glinear linear_2_physical
name_address = refl

-- One call opens a file, a later one closes the number 8.
abbrev opens : Vm
opens = record real_mode { rax = 5 }

abbrev closes : Vm
closes = record real_mode { rax = 6; regs = record real_mode.regs { g_rbx = 8 } }

opening_thread : (k : Kept) → get_cur_threadid opens 3 k ≡ ok (k, 7)
unfolding get_cur_threadid taskstruct_of get_cur_process_usermode_taskstruct glogic_2_hphysic
    glogic_2_glinear linear_2_physical read64
opening_thread k = refl

closing_thread : (k : Kept) → get_cur_threadid closes 3 k ≡ ok (k, 7)
unfolding get_cur_threadid taskstruct_of get_cur_process_usermode_taskstruct glogic_2_hphysic
    glogic_2_glinear linear_2_physical read64
closing_thread k = refl

no_thread : vm_get_waiting_syscall nothing_kept.syscallmap 7 ≡ none
unfolding vm_get_waiting_syscall find_from
no_thread = refl

no_file : vm_get_fname_from_id nothing_kept.fmap 8 ≡ none
unfolding vm_get_fname_from_id find_from
no_file = refl

sys_open-close_example :
    (opened : Kept) × (vm3 : Vm) × (returned : Kept) × (vm5 : Vm) × (closed : Kept)
    × (handle_syscall 0 locals opens nothing_kept
        ≡ ok (record opens { guest = trap_return opens.guest }, opened))
    × (handle_iret real_mode opened ≡ ok (vm3, returned))
    × (handle_syscall 0 locals closes returned ≡ ok (vm5, closed))
    × (closed.log
        ≡ record { format = " )\n"; args = [] }
          ∷ record {
            format = "filename: %s";
            args = text (take 19 (bytes_from 20 memory 0x4003) ++ 0 ∷ []) ∷ [];
          }
          ∷ record { format = ">> %s( "; args = name "close" ∷ [] }
          ∷ returned.log)
sys_open-close_example =
    sys_open-close 0 locals opens real_mode closes nothing_kept 0x4003 7 7 refl refl name_address
      (λ e. omega (arith, e)) opening_thread kernel_thread closing_thread no_thread no_file refl

abbrev enables : Vm
enables = record real_mode {
  exitcode = 129;
  regs = record real_mode.regs { g_rbx = 0; g_rcx = 0x16 };
}

abbrev to_popf : Vm → Vm
to_popf v = record v { exitcode = 113; cr0 = 0; cr4 = 0; ss = 0x10; rsp = 0x6010 }

kernel_stack : (v : Vm) → ¬ (hphysic (to_popf v) 0x10 0x6000 ≡ ok no_address)
unfolding glogic_2_hphysic glogic_2_glinear linear_2_physical
kernel_stack v found = ground (arith, found)

handle_vmexit-enable_example :
    (vm1 : Vm) × (k1 : Kept) × (vm3 : Vm) × (k3 : Kept) × (handle_vmexit 0 locals enables
        nothing_kept
      ≡ ok (vm1, k1))
    × (handle_vmexit 0 locals (to_popf vm1) k1 ≡ ok (vm3, k3))
    × CarriedOut 0x16 vm3.guest
handle_vmexit-enable_example =
    handle_vmexit-enable to_popf (λ v. refl) (λ v. refl) (λ v. refl) (λ v. refl) kernel_stack 0
      locals enables nothing_kept refl refl refl

creat_entry : entry_at syscalls 8 ≡ ok (entry 2 33 "creat")
unfolding syscalls first_syscalls entry_at
creat_entry = refl

outf_args-registers_example :
    (2 ≤ 6)
    × (outf_args 2 real_mode.regs 2 1 6 nothing_kept
        ≡ outf_values (take 2 (registers_of real_mode.regs)) nothing_kept)
outf_args-registers_example =
    outf_args-registers 8 (entry 2 33 "creat") real_mode.regs 6 nothing_kept creat_entry

abbrev empty : Vm
empty = record real_mode { guest = record real_mode.guest { mem = λ _. 0 } }

empty_list : read64 empty.guest.mem (add64 0x4005 0) ≡ 0
unfolding read64
empty_list = refl

empty_environment : read64 empty.guest.mem (add64 0x4009 0) ≡ 0
unfolding read64
empty_environment = refl

args_address : hphysic empty 0x400 5 ≡ ok 0x4005
unfolding glogic_2_hphysic glogic_2_glinear linear_2_physical
args_address = refl

env_address : hphysic empty 0x400 9 ≡ ok 0x4009
unfolding glogic_2_hphysic glogic_2_glinear linear_2_physical
env_address = refl

sys_execve-Returns_example : (k' : Kept) × (sys_execve 1 empty nothing_kept ≡ ok k')
sys_execve-Returns_example =
    sys_execve-Returns empty refl 1 0x4005 0x4009 0 0 nothing_kept args_address env_address
      (omega arith) (omega arith) empty_list empty_environment
