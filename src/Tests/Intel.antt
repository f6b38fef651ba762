-- ===== src/Tests/Intel.antt =====
-- The set-up of an Intel guest at concrete inputs.
use hv_sebek.Base.{ℕ, ◌+◌, ◌*◌, ◌%◌, ◌-◌, ◌^◌, ◌≡◌, refl, arith, some, Words, update, add64}
use hv_sebek.Base.Bits.{bit}
use hv_sebek.Base.Run.{ok, fatal}
use hv_sebek.Alloc.{map_alloc}
use hv_sebek.Alloc.Alias.{alloc_host_pages_32, low_again}
use hv_sebek.Page.{Host, page_size}
use hv_sebek.Processor.{CpuidRegs}
use hv_sebek.Startup.{pages_at, clear_bytes, cleared_at, create_intercept_table}
use hv_sebek.Vmcs.{VmxControls, IntelGuest, HostEnv, vmx_set_control_params}
use hv_sebek.Vmcs.Fields.{
  io_bitmap_a, io_bitmap_b, msr_bitmap, virtual_processor_id, host_rip, ept_pointer,
  secondary_vm_exec_control, cpu_based_vm_exec_control,
}
use hv_sebek.Vmcs.Entries.{added, vmx_add_guest_msr, vmx_write_guest_msr, vmx_read_guest_msr}
use hv_sebek.Vmcs.Controls.{vmx_set_control_params-fields}
use hv_sebek.Vmcs.Bitmap.{
  vmx_disable_intercept_for_msr, page_bit, vmx_disable_intercept_for_msr-bits,
}
use hv_sebek.Vmcs.Msrs.{vmx_add_guest_msr-write}
use hv_sebek.Vmcs.Init.{vm_init, vm_init-fatal}
use hv_sebek.Tests.Startup.{no_words, low_host, low_host-LowTaken, some_cpu}

abbrev no_controls : VmxControls
no_controls = record {
  vmx_basic_msr_low = 0;
  vmx_basic_msr_high = 0;
  vmcs_revision_id = 0;
  vmx_pin_based_exec_control = 0;
  vmx_cpu_based_exec_control = 0;
  vmx_secondary_exec_control = 0;
  vmx_vmexit_control = 0;
  vmx_vmentry_control = 0;
  vmx_secondary_exec_default1 = 0;
  vmx_ept_vpid_cap = 0;
  cpu_has_vmx_ins_outs_instr_info = 0;
}

-- One register is in the area already.
abbrev intel_guest : IntelGuest
intel_guest = record {
  n_cr3 = 0x1000;
  io_intercept_table = 0;
  msr_intercept_table = 0;
  msr_count = 1;
  msr_area = 0x8000;
  host_msr_count = 0;
  host_msr_area = 0;
  fields = λ field. 0;
  controls = no_controls;
  host = record low_host { mem = update no_words 0x8000 0x174 };
}

abbrev some_env : HostEnv
some_env = record {
  cr0 = 0x80000011;
  cr4 = 0x20;
  gdt = 0x6000;
  idt = 0x7000;
  exit_handler = 0x9000;
}

abbrev io_done : Host
io_done = record {
  mem = clear_bytes intel_guest.host.mem (32 * 4096) (8 * 2 ^ 10);
  nalloc = record low_host.nalloc { alloc_bitmap = map_alloc low_host.nalloc.alloc_bitmap 32 2 };
}

abbrev msr_done : Host
msr_done = record {
  mem = clear_bytes io_done.mem (32 * 4096) (4 * 2 ^ 10);
  nalloc = record low_host.nalloc { alloc_bitmap = map_alloc io_done.nalloc.alloc_bitmap 32 1 };
}

io_table : create_intercept_table (8 * 2 ^ 10) intel_guest.host ≡ ok (32 * 4096, io_done)
unfolding create_intercept_table cleared_at pages_at
io_table = rw (
    alloc_host_pages_32 2 low_host.nalloc (omega arith) (omega arith) (omega arith) (omega arith)
      low_host-LowTaken)

msr_table : create_intercept_table (4 * 2 ^ 10) io_done ≡ ok (32 * 4096, msr_done)
unfolding create_intercept_table cleared_at pages_at
msr_table =
    let low =
      low_again 2 low_host.nalloc (omega arith) (omega arith) (omega arith) (omega arith)
        low_host-LowTaken in
    rw (
      alloc_host_pages_32 1 io_done.nalloc (omega arith) (omega arith) (omega arith) (omega arith)
        low)

vmx_set_control_params-fields_example :
    (vm' : IntelGuest) × (vmx_set_control_params some_env intel_guest ≡ ok vm')
    × (vm'.fields io_bitmap_a ≡ 32 * 4096)
    × (vm'.fields io_bitmap_b ≡ add64 (32 * 4096) page_size)
    × (vm'.fields msr_bitmap ≡ 32 * 4096)
    × (vm'.fields virtual_processor_id ≡ 1)
    × (vm'.fields host_rip ≡ 0x9000)
    × (vm'.fields ept_pointer ≡ 30 + 0x1000 % 2 ^ 52 * 2 ^ 12)
    × (vm'.fields secondary_vm_exec_control ≡ 0)
    × (bit vm'.controls.vmx_secondary_exec_control 1 ≡ 1)
    × (bit vm'.controls.vmx_secondary_exec_control 5 ≡ 1)
    × (bit (vm'.fields cpu_based_vm_exec_control) 31 ≡ 1)
    × (bit (vm'.fields cpu_based_vm_exec_control) 28 ≡ 1)
    × (bit (vm'.fields cpu_based_vm_exec_control) 25 ≡ 1)
vmx_set_control_params-fields_example =
    vmx_set_control_params-fields some_env intel_guest (32 * 4096) (32 * 4096) io_done msr_done
      io_table msr_table

vmx_add_guest_msr-write_example :
    (vm1 vm2 : IntelGuest) × (vmx_add_guest_msr intel_guest 0x175 ≡ ok (added, vm1))
    × (vmx_write_guest_msr vm1 0x175 7 ≡ some vm2)
    × (vmx_read_guest_msr vm2 0x175 ≡ some 7)
    × (vmx_read_guest_msr vm2 0x174 ≡ vmx_read_guest_msr intel_guest 0x174)
vmx_add_guest_msr-write_example =
    vmx_add_guest_msr-write intel_guest 0x175 0x174 7 (omega arith) (omega arith) (omega arith)
      (ground arith)

-- An Intel processor.
abbrev intel_cpuid : ℕ → CpuidRegs
intel_cpuid n = record { eax = 1; ebx = 0x756e6547; ecx = 0x6c65746e; edx = 0x49656e69 }

-- The control for extended page tables may be 1, and need not.
abbrev some_msrs : Words
some_msrs = update no_words 0x48b (2 * 2 ^ 32)

vm_init-fatal_example :
    vm_init intel_cpuid some_msrs some_env (λ region. 0) some_cpu intel_guest ≡ fatal
vm_init-fatal_example =
    vm_init-fatal intel_cpuid some_msrs some_env (λ region. 0) some_cpu intel_guest (omega arith)
      (omega arith) (omega arith) (ground arith) refl refl refl

abbrev all_words : Words
all_words a = 2 ^ 64 - 1

-- The bit for writes to the register.
vmx_disable_intercept_for_msr-bits_example :
    page_bit 0x8000 (vmx_disable_intercept_for_msr 0x8000 0x174 all_words) 0x4174 ≡ 0
vmx_disable_intercept_for_msr-bits_example =
    vmx_disable_intercept_for_msr-bits 0x8000 0x174 0x4174 all_words (omega arith)
