-- ===== src/Vmcs.antt =====
-- The control structure of an Intel guest: kernel/vmcs.c and include/vmcs.h. Model-specific
-- registers are 64-bit words by number; the fields of the current control structure are held by
-- the processor, apart from memory.
pub mod Fields
pub mod Write
pub mod State
pub mod Entries
pub mod Msrs
pub mod Controls
pub mod Init
pub mod Bitmap
use hv_sebek.Base.{
  ℕ, ◌+◌, ◌*◌, ◌%◌, ◌-◌, ◌^◌, List, [], ◌∷◌, bit_and, bit_or, ltb, ◌==◌, not, if◌then◌else◌, Words,
  update, shr, u32, add64,
}
use hv_sebek.Base.Run.{Run, ok, ◌>>=◌}
use hv_sebek.Page.{Host, page_size}
use hv_sebek.Startup.{cleared_at, create_intercept_table}
use hv_sebek.Vmcs.Fields.{
  VmcsField, virtual_processor_id, host_es_selector, host_cs_selector, host_ss_selector,
  host_ds_selector, host_fs_selector, host_gs_selector, host_tr_selector, io_bitmap_a, io_bitmap_b,
  msr_bitmap, ept_pointer, pin_based_vm_exec_control, cpu_based_vm_exec_control, vm_exit_controls,
  vm_entry_controls, host_sysenter_cs, host_cr0, host_cr4, host_fs_base, host_gs_base, host_tr_base,
  host_gdtr_base, host_idtr_base, host_sysenter_esp, host_sysenter_eip, host_rsp, host_rip,
}
use hv_sebek.Vmcs.Write.{VmcsFields, vmwrite, vmwrites}

-- The words that vmcs.c keeps of the processor's abilities, and the controls that it builds.
pub record VmxControls : Type 0 where
  pub vmx_basic_msr_low : ℕ
  pub vmx_basic_msr_high : ℕ
  pub vmcs_revision_id : ℕ
  pub vmx_pin_based_exec_control : ℕ
  pub vmx_cpu_based_exec_control : ℕ
  pub vmx_secondary_exec_control : ℕ
  pub vmx_vmexit_control : ℕ
  pub vmx_vmentry_control : ℕ
  pub vmx_secondary_exec_default1 : ℕ
  pub vmx_ept_vpid_cap : ℕ
  pub cpu_has_vmx_ins_outs_instr_info : ℕ

-- What `struct vm_info` holds for an Intel processor.
pub record IntelGuest : Type 0 where
  pub n_cr3 : ℕ
  pub io_intercept_table : ℕ
  pub msr_intercept_table : ℕ
  pub msr_count : ℕ
  pub msr_area : ℕ
  pub host_msr_count : ℕ
  pub host_msr_area : ℕ
  pub fields : VmcsFields
  pub controls : VmxControls
  pub host : Host

-- The low word of a register, which is `default1` in the source.
abbrev pub default1 : Words → ℕ → ℕ
default1 msrs n = u32 (msrs n)

-- The words that the source keeps as `default0` are never read, and are left out.
unfoldable pub vmx_detect_capability : Words → VmxControls → VmxControls
vmx_detect_capability msrs g =
    let high = shr (msrs 0x480) 32 in
    let true_controls = not (bit_and high (2 ^ 23) == 0) in
    let pin = if true_controls then default1 msrs 0x48d else default1 msrs 0x481 in
    let cpu = if true_controls then default1 msrs 0x48e else default1 msrs 0x482 in
    let exits = if true_controls then default1 msrs 0x48f else default1 msrs 0x483 in
    let entries = if true_controls then default1 msrs 0x490 else default1 msrs 0x484 in
    let has_secondary = not (bit_and cpu 0x80000000 == 0) in
    let secondary = if has_secondary then default1 msrs 0x48b else g.vmx_secondary_exec_default1 in
    let has_ept = not (bit_and secondary (bit_or 0x2 0x20) == 0) in
    let cap = if has_ept then msrs 0x48c else g.vmx_ept_vpid_cap in
    let found : VmxControls = record g {
      vmx_basic_msr_low = default1 msrs 0x480;
      vmx_basic_msr_high = high;
      vmcs_revision_id = default1 msrs 0x480;
      vmx_secondary_exec_default1 = secondary;
      vmx_ept_vpid_cap = if has_secondary then cap else g.vmx_ept_vpid_cap;
    } in
    if g.vmx_pin_based_exec_control == 0
    then record found {
      vmx_pin_based_exec_control = pin;
      vmx_cpu_based_exec_control = cpu;
      vmx_secondary_exec_control = secondary;
      vmx_vmexit_control = exits;
      vmx_vmentry_control = entries;
      cpu_has_vmx_ins_outs_instr_info = if bit_and high (2 ^ 22) == 0 then 0 else 1;
    }
    else found

-- `revision_id` is the low half of the first word of the page.
unfoldable pub alloc_vmcs : ℕ → Host → Run (ℕ × Host)
alloc_vmcs vmcs_revision_id h = cleared_at 1 page_size h >>= λ (vmcs, h').
    (let named = record h' { mem = update h'.mem vmcs vmcs_revision_id } in
      ok (vmcs, if vmcs == 0 then h' else named))

-- A null pointer is 0.
unfoldable pub create_vmcs : VmxControls → Host → Run (ℕ × Host)
create_vmcs g h =
    let create = alloc_vmcs g.vmcs_revision_id h in
    if ltb page_size (bit_and g.vmx_basic_msr_high 0x1fff)
    then ok (0, h)
    else (if bit_and g.vmx_basic_msr_high (2 ^ 16) == 0
        then (if bit_and (shr g.vmx_basic_msr_high 18) 15 == 6 then create else ok (0, h))
        else ok (0, h))

-- The registers of the host that `vmcs_init_host_env` reads, and the address of
-- `vmx_asm_vmexit_handler`.
pub record HostEnv : Type 0 where
  pub cr0 : ℕ
  pub cr4 : ℕ
  pub gdt : ℕ
  pub idt : ℕ
  pub exit_handler : ℕ

unfoldable pub vmcs_init_host_env : HostEnv → VmcsFields → VmcsFields
vmcs_init_host_env env fields =
    vmwrites
      ((host_ss_selector, 56)
        ∷ (host_ds_selector, 56)
        ∷ (host_es_selector, 56)
        ∷ (host_fs_selector, 56)
        ∷ (host_gs_selector, 56)
        ∷ (host_fs_base, 0)
        ∷ (host_gs_base, 0)
        ∷ (host_cr0, bit_or env.cr0 0x8)
        ∷ (host_cr4, bit_or env.cr4 0x40000)
        ∷ (host_cs_selector, 40)
        ∷ (host_rip, env.exit_handler)
        ∷ (host_sysenter_cs, 0)
        ∷ (host_sysenter_eip, 0)
        ∷ (host_sysenter_esp, 0)
        ∷ (host_gdtr_base, env.gdt)
        ∷ (host_idtr_base, env.idt)
        ∷ (host_tr_selector, 56)
        ∷ (host_tr_base, 0)
        ∷ [])
      fields

-- `vmx_ept_control.eptp`; `asr` takes 52 bits of the table's address.
unfoldable pub eptp : ℕ → ℕ
eptp n_cr3 = 6 + 3 * 2 ^ 3 + n_cr3 % 2 ^ 52 * 2 ^ 12

-- The fields before those of the host.
unfoldable pub control_fields : ℕ → ℕ → ℕ → VmxControls → List (VmcsField × ℕ)
unfolding eptp
control_fields n_cr3 io msr g =
    (pin_based_vm_exec_control, g.vmx_pin_based_exec_control)
    ∷ (io_bitmap_a, io)
    ∷ (io_bitmap_b, add64 io page_size)
    ∷ (msr_bitmap, msr)
    ∷ (cpu_based_vm_exec_control, g.vmx_cpu_based_exec_control)
    ∷ (ept_pointer, eptp n_cr3)
    ∷ (virtual_processor_id, 1)
    ∷ (vm_exit_controls, g.vmx_vmexit_control)
    ∷ (vm_entry_controls, g.vmx_vmentry_control)
    ∷ []

unfoldable pub wanted_controls : VmxControls → VmxControls
wanted_controls g = record g {
  vmx_cpu_based_exec_control =
      bit_or (bit_or (bit_or g.vmx_cpu_based_exec_control 0x80000000) 0x2000000) 0x10000000;
  vmx_secondary_exec_control = bit_or (bit_or g.vmx_secondary_exec_control 0x2) 0x20;
  vmx_vmexit_control =
      bit_or (bit_or g.vmx_vmexit_control (bit_or 0x200 0x8000)) (bit_or 0x40000 0x80000);
  vmx_vmentry_control = bit_or g.vmx_vmentry_control 0x4000;
}

unfoldable pub vmx_set_control_params : HostEnv → IntelGuest → Run IntelGuest
unfolding control_fields wanted_controls vmcs_init_host_env
vmx_set_control_params env vm =
    let g = wanted_controls vm.controls in
    create_intercept_table (8 * 2 ^ 10) vm.host >>= λ (io, h1).
    (create_intercept_table (4 * 2 ^ 10) h1 >>= λ (msr, h2). ok (record vm {
      io_intercept_table = io;
      msr_intercept_table = msr;
      host = h2;
      controls = g;
      fields = vmcs_init_host_env env (vmwrites (control_fields vm.n_cr3 io msr g) vm.fields);
    }))

-- `rsp` is the register of the host.
unfoldable pub vmx_save_host_state : ℕ → VmcsFields → VmcsFields
vmx_save_host_state rsp fields = vmwrite host_rsp rsp fields
