-- ===== src/Vmexit/Sysenter.antt =====
-- `wrmsr`, general protection faults and user commands in kernel/intercept.c: what one exit keeps
-- for a later one.
use hv_sebek.Base.{ℕ, ◌+◌, ◌-◌, ◌^◌, ◌≡◌, ap, ◌∙◌, arith, true, bit_and, u16, add64, shl64}
use hv_sebek.Base.Bits.{bit_and_mask}
use hv_sebek.Base.Run.{ok, is_ok, is_ok-Returns}
use hv_sebek.Vmexit.{Vm, Kept}
use hv_sebek.Vmexit.Calls.Dispatch.{Stack}
use hv_sebek.Vmexit.Handlers.{handle_wrmsr, handle_exception, handle_vmexit, dispatch_exit}

-- Both exits return, and what they leave in the fields.
module _ (fuel : ℕ) (stack : Stack) (vm : Vm) (k : Kept) where
  wrmsr-ok :
      vm.exitcode ≡ 124
      → vm.exitinfo1 ≡ 1
      → vm.regs.g_rcx ≡ 0x174
      → is_ok (handle_vmexit fuel stack vm k) ≡ true
  unfolding handle_vmexit dispatch_exit handle_wrmsr
  wrmsr-ok msr write register = ground arith

  fault-ok : vm.exitcode ≡ 77 → is_ok (handle_vmexit fuel stack vm k) ≡ true
  unfolding handle_vmexit dispatch_exit handle_exception
  fault-ok fault = ground arith

  module _ (vm' : Vm) (k' : Kept) (returned : handle_vmexit fuel stack vm k ≡ ok (vm', k')) where
    wrmsr_fields :
        vm.exitcode ≡ 124
        → vm.exitinfo1 ≡ 1
        → vm.regs.g_rcx ≡ 0x174
        → (vm'.sysenter_cs ≡ 0)
          × (vm'.rip ≡ add64 vm.rip 2)
          × (vm'.org_sysenter_cs ≡ add64 (shl64 vm.regs.g_rdx 32) (bit_and vm.rax (2 ^ 32 - 1)))
    unfolding handle_vmexit dispatch_exit handle_wrmsr
    wrmsr_fields msr write register = ground arith

    fault_fields :
        vm.exitcode ≡ 77
        → (vm'.cs ≡ u16 vm.org_sysenter_cs)
          × (vm'.ss ≡ u16 (vm.org_sysenter_cs + 8))
          × (vm'.rsp ≡ vm.sysenter_esp)
          × (vm'.rip ≡ vm.sysenter_eip)
    unfolding handle_vmexit dispatch_exit handle_exception
    fault_fields fault = ground arith

low_half :
    (high low n : ℕ) → u16 (add64 (shl64 high 32) (bit_and low (2 ^ 32 - 1)) + n) ≡ u16 (low + n)
low_half high low n = omega (arith, bit_and_mask 32 low)

-- What the guest does until its next exit, a general protection fault.
module _ (guest_runs : Vm → Vm)
    (keeps : (v : Vm) → (guest_runs v).org_sysenter_cs ≡ v.org_sysenter_cs)
    (faults : (v : Vm) → (guest_runs v).exitcode ≡ 77) where
  -- An intercepted `wrmsr` to the register for the code segment of `sysenter` is handled: the
  -- processor's register is 0 then and the instruction is passed. Where the guest runs on from
  -- there to a general protection fault, that exit is handled too: it takes the guest to the
  -- segment that it wrote, with the next one for its stack, and to the entry that it has set.
  pub handle_vmexit-wrmsr :
      (fuel : ℕ) (stack : Stack) (vm : Vm) (k : Kept)
      → vm.exitcode ≡ 124
      → vm.exitinfo1 ≡ 1
      → vm.regs.g_rcx ≡ 0x174
      → (vm1 : Vm) × (k1 : Kept) × (vm3 : Vm) × (k3 : Kept) × (handle_vmexit fuel stack vm k
          ≡ ok (vm1, k1))
        × (vm1.sysenter_cs ≡ 0)
        × (vm1.rip ≡ add64 vm.rip 2)
        × (handle_vmexit fuel stack (guest_runs vm1) k1 ≡ ok (vm3, k3))
        × (vm3.cs ≡ u16 vm.rax)
        × (vm3.ss ≡ u16 (vm.rax + 8))
        × (vm3.rsp ≡ (guest_runs vm1).sysenter_esp)
        × (vm3.rip ≡ (guest_runs vm1).sysenter_eip)
  handle_vmexit-wrmsr fuel stack vm k msr write register =
      let ((vm1, k1), first) = is_ok-Returns _ (wrmsr-ok fuel stack vm k msr write register) in
      let vm2 = guest_runs vm1 in
      let ((vm3, k3), second) = is_ok-Returns _ (fault-ok fuel stack vm2 k1 (faults vm1)) in
      let written = wrmsr_fields fuel stack vm k vm1 k1 first msr write register in
      let entered = fault_fields fuel stack vm2 k1 vm3 k3 second (faults vm1) in
      let value = keeps vm1 ∙ written.2 in
      (
        vm1,
        k1,
        vm3,
        k3,
        first,
        written.0,
        written.1,
        second,
        entered.0 ∙ ap u16 value ∙ ground (arith, low_half vm.regs.g_rdx vm.rax 0),
        entered.1 ∙ ap (λ (n : ℕ). u16 (n + 8)) value ∙ low_half vm.regs.g_rdx vm.rax 8,
        entered.2,
        entered.3,
      )
