-- ===== src/Vmexit/Reports.antt =====
-- What the handlers of kernel/intercept.c report by `print_vmcb_state` and `print_page_errorcode`
-- of kernel/vmcb.c.
use hv_sebek.Base.{ℕ, [], ◌∷◌, bit_and, ◌==◌, if◌then◌else◌, String}
use hv_sebek.Vmexit.{Vm, Kept, hex, outf}

unfoldable pub print_vmcb_state : Vm → Kept → Kept
print_vmcb_state vm k =
    let k1 = outf k "*******  VMCB STATE  *********\n" [] in
    let k2 = outf k1 "cs:ip = %x:%x\n" (hex vm.cs ∷ hex vm.rip ∷ []) in
    let k3 = outf k2 "ss:sp = %x:%x\n" (hex vm.ss ∷ hex vm.rsp ∷ []) in
    let k4 = outf k3 "ds:bp = %x:%x\n" (hex vm.ds ∷ hex vm.regs.g_rbp ∷ []) in
    let k5 =
      outf k4 "eax = %x, ebx = %x, ecx = %x, edx = %x\n"
        (hex vm.rax ∷ hex vm.regs.g_rbx ∷ hex vm.regs.g_rcx ∷ hex vm.regs.g_rdx ∷ []) in
    let k6 = outf k5 "esi = %x, edi = %x" (hex vm.regs.g_rsi ∷ hex vm.regs.g_rdi ∷ []) in
    let k7 = outf k6 "cpl=%x\n" (hex vm.cpl ∷ []) in
    let k8 = outf k7 "cr0=%x, cr3=%x, cr4=%x\n" (hex vm.cr0 ∷ hex vm.guest.cr3 ∷ hex vm.cr4 ∷ []) in
    outf k8 "rflags=%x, efer=%x\n" (hex vm.guest.rflags ∷ hex vm.efer ∷ [])

-- One of two texts by a flag of the error code.
abbrev pub outf_flag : Kept → ℕ → ℕ → String → String → Kept
outf_flag k errcode flag on off = if bit_and errcode flag == 0 then outf k off [] else outf k on []

unfoldable pub print_page_errorcode : ℕ → Kept → Kept
print_page_errorcode errcode k =
    let k1 =
      outf_flag k errcode 1 "page fault was caused by a page-protection violation\n"
        "page fault was caused by a not-present page\n" in
    let k2 = outf_flag k1 errcode 2 "memory access was write\n" "memory access was read\n" in
    let k3 =
      outf_flag k2 errcode 4 "an access in user mode caused the page fault\n"
        "an access in supervisor mode caused the page fault\n" in
    let k4 : Kept =
      if bit_and errcode 8 == 0
      then k3
      else outf k3
          "error caused by reading a '1' from reserved field, \t\t\twhen CR4.PSE=1 or CR4.PAE=1\n"
          [] in
    if bit_and errcode 16 == 0
    then k4
    else outf k4 "error caused by instruction fetch, when \t\t\tEFER.NXE=1 && CR4.PAE=1" []
