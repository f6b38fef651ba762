-- ===== src/Vmcs/Controls.antt =====
-- What `vmx_set_control_params` of kernel/vmcs.c leaves in the control structure.
use hv_sebek.Base.{ℕ, ◌+◌, ◌*◌, ◌%◌, ◌^◌, ◌≡◌, refl, arith, add64, bit_or}
use hv_sebek.Base.Bits.{bit, bit-lt, bit-bit_or}
use hv_sebek.Intercept.Flags.{bit-set}
use hv_sebek.Base.Run.{ok}
use hv_sebek.Page.{Host, page_size}
use hv_sebek.Startup.{create_intercept_table}
use hv_sebek.Vmcs.{
  HostEnv, IntelGuest, vmx_set_control_params, wanted_controls, control_fields, eptp,
  vmcs_init_host_env,
}
use hv_sebek.Vmcs.Fields.{
  cpu_based_vm_exec_control, msr_bitmap, io_bitmap_a, io_bitmap_b, ept_pointer,
  virtual_processor_id, host_rip, secondary_vm_exec_control,
}
use hv_sebek.Vmcs.Write.{vmwrite, vmwrites, encoding}

-- A bit that is set stays so.
set_before : (word more k : ℕ) → bit word k ≡ 1 → bit (bit_or word more) k ≡ 1
set_before word more k on = omega (arith, bit-bit_or k word more, bit-lt more k, on)

-- Where the tables of ports and registers can be made, the control structure gets them, the
-- guest's identifier and the handler of exits, and its controls ask for both tables and for the
-- secondary controls; its page-table pointer holds the table's address shifted by the bits of a
-- page, though it is an address already, and the field of the secondary controls stays as it was,
-- though extended page tables and the identifier are switched on in the controls that are kept.
pub vmx_set_control_params-fields :
    (env : HostEnv) (vm : IntelGuest) (io msr : ℕ) (h1 h2 : Host)
    → create_intercept_table (8 * 2 ^ 10) vm.host ≡ ok (io, h1)
    → create_intercept_table (4 * 2 ^ 10) h1 ≡ ok (msr, h2)
    → (vm' : IntelGuest) × (vmx_set_control_params env vm ≡ ok vm')
      × (vm'.fields io_bitmap_a ≡ io)
      × (vm'.fields io_bitmap_b ≡ add64 io page_size)
      × (vm'.fields msr_bitmap ≡ msr)
      × (vm'.fields virtual_processor_id ≡ 1)
      × (vm'.fields host_rip ≡ env.exit_handler)
      × (vm'.fields ept_pointer ≡ 30 + vm.n_cr3 % 2 ^ 52 * 2 ^ 12)
      × (vm'.fields secondary_vm_exec_control ≡ vm.fields secondary_vm_exec_control)
      × (bit vm'.controls.vmx_secondary_exec_control 1 ≡ 1)
      × (bit vm'.controls.vmx_secondary_exec_control 5 ≡ 1)
      × (bit (vm'.fields cpu_based_vm_exec_control) 31 ≡ 1)
      × (bit (vm'.fields cpu_based_vm_exec_control) 28 ≡ 1)
      × (bit (vm'.fields cpu_based_vm_exec_control) 25 ≡ 1)
unfolding vmx_set_control_params wanted_controls control_fields eptp vmcs_init_host_env vmwrites
    vmwrite encoding
vmx_set_control_params-fields env vm io msr h1 h2 first second =
    let g = wanted_controls vm.controls in
    let second_or = vm.controls.vmx_secondary_exec_control in
    let cpu = vm.controls.vmx_cpu_based_exec_control in
    let cpu1 = bit_or cpu 0x80000000 in
    let cpu2 = bit_or cpu1 0x2000000 in
    (
      record vm {
        io_intercept_table = io;
        msr_intercept_table = msr;
        host = h2;
        controls = g;
        fields = vmcs_init_host_env env (vmwrites (control_fields vm.n_cr3 io msr g) vm.fields);
      },
      rw (first, second),
      refl,
      refl,
      refl,
      refl,
      refl,
      refl,
      refl,
      set_before (bit_or second_or 0x2) 0x20 1 (bit-set second_or 1 1),
      bit-set (bit_or second_or 0x2) 5 5,
      set_before cpu2 0x10000000 31 (set_before cpu1 0x2000000 31 (bit-set cpu 31 31)),
      bit-set cpu2 28 28,
      set_before cpu2 0x10000000 25 (bit-set cpu1 25 25),
    )
