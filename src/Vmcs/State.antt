-- ===== src/Vmcs/State.antt =====
-- The state in which an Intel guest starts, `vmx_set_vm_to_mbr_start_state` of kernel/vmcs.c.
use hv_sebek.Base.{ℕ, ◌*◌, ◌-◌, ◌^◌, List, [], ◌∷◌, Words}
use hv_sebek.Vmcs.Fields.{
  VmcsField, guest_es_selector, guest_cs_selector, guest_ss_selector, guest_ds_selector,
  guest_fs_selector, guest_gs_selector, guest_ldtr_selector, vmcs_link_pointer, guest_pat, host_pat,
  exception_bitmap, page_fault_error_code_mask, page_fault_error_code_match, cr3_target_count,
  vm_exit_msr_store_count, vm_exit_msr_load_count, vm_entry_msr_load_count, vm_entry_intr_info,
  guest_es_limit, guest_cs_limit, guest_ss_limit, guest_ds_limit, guest_fs_limit, guest_gs_limit,
  guest_ldtr_limit, guest_tr_limit, guest_gdtr_limit, guest_idtr_limit, guest_es_ar_bytes,
  guest_cs_ar_bytes, guest_ss_ar_bytes, guest_ds_ar_bytes, guest_fs_ar_bytes, guest_gs_ar_bytes,
  guest_ldtr_ar_bytes, guest_tr_ar_bytes, guest_interruptibility_info, guest_activity_state,
  cr0_guest_host_mask, cr4_guest_host_mask, guest_cr0, guest_cr3, guest_cr4, guest_es_base,
  guest_cs_base, guest_ss_base, guest_ds_base, guest_fs_base, guest_gs_base, guest_ldtr_base,
  guest_tr_base, guest_gdtr_base, guest_idtr_base, guest_dr7, guest_rsp, guest_rip, guest_rflags,
}
use hv_sebek.Vmcs.Write.{VmcsFields, vmwrites}

-- The writes of `vmx_set_vm_to_mbr_start_state`, up to the selectors.
unfoldable pub start_segments : List (VmcsField × ℕ)
start_segments =
    (vm_exit_msr_load_count, 0)
    ∷ (vm_exit_msr_store_count, 0)
    ∷ (vm_entry_msr_load_count, 0)
    ∷ (vm_entry_intr_info, 0)
    ∷ (cr0_guest_host_mask, 2 ^ 64 - 1)
    ∷ (cr4_guest_host_mask, 2 ^ 64 - 1)
    ∷ (page_fault_error_code_mask, 0)
    ∷ (page_fault_error_code_match, 0)
    ∷ (cr3_target_count, 0)
    ∷ (guest_activity_state, 0)
    ∷ (guest_es_base, 0)
    ∷ (guest_ss_base, 0)
    ∷ (guest_ds_base, 4 * 8 ^ 2)
    ∷ (guest_fs_base, 0xe7170)
    ∷ (guest_gs_base, 0xf0000)
    ∷ (guest_cs_base, 0)
    ∷ (guest_es_limit, 2 ^ 32 - 1)
    ∷ (guest_ss_limit, 2 ^ 32 - 1)
    ∷ (guest_ds_limit, 2 ^ 32 - 1)
    ∷ (guest_fs_limit, 2 ^ 32 - 1)
    ∷ (guest_gs_limit, 2 ^ 32 - 1)
    ∷ (guest_cs_limit, 2 ^ 32 - 1)
    ∷ (guest_es_ar_bytes, 0x93)
    ∷ (guest_ss_ar_bytes, 0x193)
    ∷ (guest_ds_ar_bytes, 0x93)
    ∷ (guest_fs_ar_bytes, 0x93)
    ∷ (guest_gs_ar_bytes, 0x93)
    ∷ (guest_cs_ar_bytes, 0x19b)
    ∷ (guest_es_selector, 0)
    ∷ (guest_ss_selector, 0)
    ∷ (guest_ds_selector, 0x0040)
    ∷ (guest_fs_selector, 0xe717)
    ∷ (guest_gs_selector, 0xf000)
    ∷ (guest_cs_selector, 0)
    ∷ []

-- The rest, with the register `MSR_IA32_CR_PAT` of the host.
unfoldable pub start_registers : ℕ → List (VmcsField × ℕ)
start_registers host_pat_msr =
    (guest_idtr_base, 0)
    ∷ (guest_idtr_limit, 0)
    ∷ (guest_gdtr_base, 0)
    ∷ (guest_gdtr_limit, 0)
    ∷ (guest_ldtr_ar_bytes, 0x0082)
    ∷ (guest_ldtr_selector, 0)
    ∷ (guest_ldtr_base, 0)
    ∷ (guest_ldtr_limit, 0)
    ∷ (guest_tr_ar_bytes, 0x008b)
    ∷ (guest_tr_base, 0)
    ∷ (guest_tr_limit, 0xff)
    ∷ (guest_interruptibility_info, 0)
    ∷ (guest_dr7, 0)
    ∷ (vmcs_link_pointer, 2 ^ 64 - 1)
    ∷ (exception_bitmap, 0)
    ∷ (guest_cr0, 0x11)
    ∷ (guest_cr3, 0)
    ∷ (guest_cr4, 0)
    ∷ (host_pat, host_pat_msr)
    ∷ (guest_pat, 0x7040600070406)
    ∷ (guest_rsp, 0x3e2)
    ∷ (guest_rflags, 0x2206)
    ∷ (guest_rip, 0x7c00)
    ∷ []

unfoldable pub vmx_set_vm_to_mbr_start_state : Words → VmcsFields → VmcsFields
unfolding start_segments start_registers
vmx_set_vm_to_mbr_start_state msrs fields =
    vmwrites (start_registers (msrs 0x277)) (vmwrites start_segments fields)
