-- ===== src/Vmcs/Write.antt =====
-- The numbers of the fields in include/vmcs.h, and what the instruction `vmwrite` does to a field.
use hv_sebek.Base.{ℕ, ◌==◌, if◌then◌else◌, List, [], ◌∷◌}
use hv_sebek.Vmcs.Fields.{
  VmcsField, virtual_processor_id, guest_es_selector, guest_cs_selector, guest_ss_selector,
  guest_ds_selector, guest_fs_selector, guest_gs_selector, guest_ldtr_selector, guest_tr_selector,
  host_es_selector, host_cs_selector, host_ss_selector, host_ds_selector, host_fs_selector,
  host_gs_selector, host_tr_selector, io_bitmap_a, io_bitmap_a_high, io_bitmap_b, io_bitmap_b_high,
  msr_bitmap, msr_bitmap_high, vm_exit_msr_store_addr, vm_exit_msr_store_addr_high,
  vm_exit_msr_load_addr, vm_exit_msr_load_addr_high, vm_entry_msr_load_addr,
  vm_entry_msr_load_addr_high, tsc_offset, tsc_offset_high, virtual_apic_page_addr,
  virtual_apic_page_addr_high, apic_access_addr, apic_access_addr_high, ept_pointer,
  ept_pointer_high, guest_physical_address, guest_physical_address_high, vmcs_link_pointer,
  vmcs_link_pointer_high, guest_ia32_debugctl, guest_ia32_debugctl_high, guest_pat, guest_pat_high,
  guest_pdptr0, guest_pdptr0_high, guest_pdptr1, guest_pdptr1_high, guest_pdptr2, guest_pdptr2_high,
  guest_pdptr3, guest_pdptr3_high, host_pat, host_pat_high, pin_based_vm_exec_control,
  cpu_based_vm_exec_control, exception_bitmap, page_fault_error_code_mask,
  page_fault_error_code_match, cr3_target_count, vm_exit_controls, vm_exit_msr_store_count,
  vm_exit_msr_load_count, vm_entry_controls, vm_entry_msr_load_count, vm_entry_intr_info,
  vm_entry_exception_error_code, vm_entry_instruction_len, tpr_threshold, secondary_vm_exec_control,
  ple_gap, ple_window, vm_instruction_error, vm_exit_reason, vm_exit_intr_info,
  vm_exit_intr_error_code, idt_vectoring_info, idt_vectoring_error_code, vm_exit_instruction_len,
  vmx_instruction_info, guest_es_limit, guest_cs_limit, guest_ss_limit, guest_ds_limit,
  guest_fs_limit, guest_gs_limit, guest_ldtr_limit, guest_tr_limit, guest_gdtr_limit,
  guest_idtr_limit, guest_es_ar_bytes, guest_cs_ar_bytes, guest_ss_ar_bytes, guest_ds_ar_bytes,
  guest_fs_ar_bytes, guest_gs_ar_bytes, guest_ldtr_ar_bytes, guest_tr_ar_bytes,
  guest_interruptibility_info, guest_activity_state, guest_sysenter_cs, host_sysenter_cs,
  cr0_guest_host_mask, cr4_guest_host_mask, cr0_read_shadow, cr4_read_shadow, cr3_target_value0,
  cr3_target_value1, cr3_target_value2, cr3_target_value3, exit_qualification, guest_linear_address,
  guest_cr0, guest_cr3, guest_cr4, guest_es_base, guest_cs_base, guest_ss_base, guest_ds_base,
  guest_fs_base, guest_gs_base, guest_ldtr_base, guest_tr_base, guest_gdtr_base, guest_idtr_base,
  guest_dr7, guest_rsp, guest_rip, guest_rflags, guest_pending_dbg_exceptions, guest_sysenter_esp,
  guest_sysenter_eip, host_cr0, host_cr3, host_cr4, host_fs_base, host_gs_base, host_tr_base,
  host_gdtr_base, host_idtr_base, host_sysenter_esp, host_sysenter_eip, host_rsp, host_rip,
}

unfoldable pub encoding : VmcsField → ℕ
encoding virtual_processor_id = 0x0
encoding guest_es_selector = 0x800
encoding guest_cs_selector = 0x802
encoding guest_ss_selector = 0x804
encoding guest_ds_selector = 0x806
encoding guest_fs_selector = 0x808
encoding guest_gs_selector = 0x80a
encoding guest_ldtr_selector = 0x80c
encoding guest_tr_selector = 0x80e
encoding host_es_selector = 0xc00
encoding host_cs_selector = 0xc02
encoding host_ss_selector = 0xc04
encoding host_ds_selector = 0xc06
encoding host_fs_selector = 0xc08
encoding host_gs_selector = 0xc0a
encoding host_tr_selector = 0xc0c
encoding io_bitmap_a = 0x2000
encoding io_bitmap_a_high = 0x2001
encoding io_bitmap_b = 0x2002
encoding io_bitmap_b_high = 0x2003
encoding msr_bitmap = 0x2004
encoding msr_bitmap_high = 0x2005
encoding vm_exit_msr_store_addr = 0x2006
encoding vm_exit_msr_store_addr_high = 0x2007
encoding vm_exit_msr_load_addr = 0x2008
encoding vm_exit_msr_load_addr_high = 0x2009
encoding vm_entry_msr_load_addr = 0x200a
encoding vm_entry_msr_load_addr_high = 0x200b
encoding tsc_offset = 0x2010
encoding tsc_offset_high = 0x2011
encoding virtual_apic_page_addr = 0x2012
encoding virtual_apic_page_addr_high = 0x2013
encoding apic_access_addr = 0x2014
encoding apic_access_addr_high = 0x2015
encoding ept_pointer = 0x201a
encoding ept_pointer_high = 0x201b
encoding guest_physical_address = 0x2400
encoding guest_physical_address_high = 0x2401
encoding vmcs_link_pointer = 0x2800
encoding vmcs_link_pointer_high = 0x2801
encoding guest_ia32_debugctl = 0x2802
encoding guest_ia32_debugctl_high = 0x2803
encoding guest_pat = 0x2804
encoding guest_pat_high = 0x2805
encoding guest_pdptr0 = 0x280a
encoding guest_pdptr0_high = 0x280b
encoding guest_pdptr1 = 0x280c
encoding guest_pdptr1_high = 0x280d
encoding guest_pdptr2 = 0x280e
encoding guest_pdptr2_high = 0x280f
encoding guest_pdptr3 = 0x2810
encoding guest_pdptr3_high = 0x2811
encoding host_pat = 0x2c00
encoding host_pat_high = 0x2c01
encoding pin_based_vm_exec_control = 0x4000
encoding cpu_based_vm_exec_control = 0x4002
encoding exception_bitmap = 0x4004
encoding page_fault_error_code_mask = 0x4006
encoding page_fault_error_code_match = 0x4008
encoding cr3_target_count = 0x400a
encoding vm_exit_controls = 0x400c
encoding vm_exit_msr_store_count = 0x400e
encoding vm_exit_msr_load_count = 0x4010
encoding vm_entry_controls = 0x4012
encoding vm_entry_msr_load_count = 0x4014
encoding vm_entry_intr_info = 0x4016
encoding vm_entry_exception_error_code = 0x4018
encoding vm_entry_instruction_len = 0x401a
encoding tpr_threshold = 0x401c
encoding secondary_vm_exec_control = 0x401e
encoding ple_gap = 0x4020
encoding ple_window = 0x4022
encoding vm_instruction_error = 0x4400
encoding vm_exit_reason = 0x4402
encoding vm_exit_intr_info = 0x4404
encoding vm_exit_intr_error_code = 0x4406
encoding idt_vectoring_info = 0x4408
encoding idt_vectoring_error_code = 0x440a
encoding vm_exit_instruction_len = 0x440c
encoding vmx_instruction_info = 0x440e
encoding guest_es_limit = 0x4800
encoding guest_cs_limit = 0x4802
encoding guest_ss_limit = 0x4804
encoding guest_ds_limit = 0x4806
encoding guest_fs_limit = 0x4808
encoding guest_gs_limit = 0x480a
encoding guest_ldtr_limit = 0x480c
encoding guest_tr_limit = 0x480e
encoding guest_gdtr_limit = 0x4810
encoding guest_idtr_limit = 0x4812
encoding guest_es_ar_bytes = 0x4814
encoding guest_cs_ar_bytes = 0x4816
encoding guest_ss_ar_bytes = 0x4818
encoding guest_ds_ar_bytes = 0x481a
encoding guest_fs_ar_bytes = 0x481c
encoding guest_gs_ar_bytes = 0x481e
encoding guest_ldtr_ar_bytes = 0x4820
encoding guest_tr_ar_bytes = 0x4822
encoding guest_interruptibility_info = 0x4824
encoding guest_activity_state = 0x4826
encoding guest_sysenter_cs = 0x482a
encoding host_sysenter_cs = 0x4c00
encoding cr0_guest_host_mask = 0x6000
encoding cr4_guest_host_mask = 0x6002
encoding cr0_read_shadow = 0x6004
encoding cr4_read_shadow = 0x6006
encoding cr3_target_value0 = 0x6008
encoding cr3_target_value1 = 0x600a
encoding cr3_target_value2 = 0x600c
encoding cr3_target_value3 = 0x600e
encoding exit_qualification = 0x6400
encoding guest_linear_address = 0x640a
encoding guest_cr0 = 0x6800
encoding guest_cr3 = 0x6802
encoding guest_cr4 = 0x6804
encoding guest_es_base = 0x6806
encoding guest_cs_base = 0x6808
encoding guest_ss_base = 0x680a
encoding guest_ds_base = 0x680c
encoding guest_fs_base = 0x680e
encoding guest_gs_base = 0x6810
encoding guest_ldtr_base = 0x6812
encoding guest_tr_base = 0x6814
encoding guest_gdtr_base = 0x6816
encoding guest_idtr_base = 0x6818
encoding guest_dr7 = 0x681a
encoding guest_rsp = 0x681c
encoding guest_rip = 0x681e
encoding guest_rflags = 0x6820
encoding guest_pending_dbg_exceptions = 0x6822
encoding guest_sysenter_esp = 0x6824
encoding guest_sysenter_eip = 0x6826
encoding host_cr0 = 0x6c00
encoding host_cr3 = 0x6c02
encoding host_cr4 = 0x6c04
encoding host_fs_base = 0x6c06
encoding host_gs_base = 0x6c08
encoding host_tr_base = 0x6c0a
encoding host_gdtr_base = 0x6c0c
encoding host_idtr_base = 0x6c0e
encoding host_sysenter_esp = 0x6c10
encoding host_sysenter_eip = 0x6c12
encoding host_rsp = 0x6c14
encoding host_rip = 0x6c16

-- The fields of the current control structure.
abbrev pub VmcsFields : Type 0
VmcsFields = VmcsField → ℕ

unfoldable pub vmwrite : VmcsField → ℕ → VmcsFields → VmcsFields
unfolding encoding
vmwrite field value fields other = if encoding field == encoding other then value else fields other

-- A sequence of `__vmwrite`.
unfoldable pub vmwrites : List (VmcsField × ℕ) → VmcsFields → VmcsFields
unfolding vmwrite
vmwrites [] fields = fields
vmwrites (w ∷ ws) fields = vmwrites ws (vmwrite w.0 w.1 fields)
