-- ===== src/Vmcs/Fields.antt =====
-- The fields of a control structure: `enum vmcs_field` of include/vmcs.h.

pub data VmcsField : Type 0 where
  virtual_processor_id : VmcsField
  guest_es_selector : VmcsField
  guest_cs_selector : VmcsField
  guest_ss_selector : VmcsField
  guest_ds_selector : VmcsField
  guest_fs_selector : VmcsField
  guest_gs_selector : VmcsField
  guest_ldtr_selector : VmcsField
  guest_tr_selector : VmcsField
  host_es_selector : VmcsField
  host_cs_selector : VmcsField
  host_ss_selector : VmcsField
  host_ds_selector : VmcsField
  host_fs_selector : VmcsField
  host_gs_selector : VmcsField
  host_tr_selector : VmcsField
  io_bitmap_a : VmcsField
  io_bitmap_a_high : VmcsField
  io_bitmap_b : VmcsField
  io_bitmap_b_high : VmcsField
  msr_bitmap : VmcsField
  msr_bitmap_high : VmcsField
  vm_exit_msr_store_addr : VmcsField
  vm_exit_msr_store_addr_high : VmcsField
  vm_exit_msr_load_addr : VmcsField
  vm_exit_msr_load_addr_high : VmcsField
  vm_entry_msr_load_addr : VmcsField
  vm_entry_msr_load_addr_high : VmcsField
  tsc_offset : VmcsField
  tsc_offset_high : VmcsField
  virtual_apic_page_addr : VmcsField
  virtual_apic_page_addr_high : VmcsField
  apic_access_addr : VmcsField
  apic_access_addr_high : VmcsField
  ept_pointer : VmcsField
  ept_pointer_high : VmcsField
  guest_physical_address : VmcsField
  guest_physical_address_high : VmcsField
  vmcs_link_pointer : VmcsField
  vmcs_link_pointer_high : VmcsField
  guest_ia32_debugctl : VmcsField
  guest_ia32_debugctl_high : VmcsField
  guest_pat : VmcsField
  guest_pat_high : VmcsField
  guest_pdptr0 : VmcsField
  guest_pdptr0_high : VmcsField
  guest_pdptr1 : VmcsField
  guest_pdptr1_high : VmcsField
  guest_pdptr2 : VmcsField
  guest_pdptr2_high : VmcsField
  guest_pdptr3 : VmcsField
  guest_pdptr3_high : VmcsField
  host_pat : VmcsField
  host_pat_high : VmcsField
  pin_based_vm_exec_control : VmcsField
  cpu_based_vm_exec_control : VmcsField
  exception_bitmap : VmcsField
  page_fault_error_code_mask : VmcsField
  page_fault_error_code_match : VmcsField
  cr3_target_count : VmcsField
  vm_exit_controls : VmcsField
  vm_exit_msr_store_count : VmcsField
  vm_exit_msr_load_count : VmcsField
  vm_entry_controls : VmcsField
  vm_entry_msr_load_count : VmcsField
  vm_entry_intr_info : VmcsField
  vm_entry_exception_error_code : VmcsField
  vm_entry_instruction_len : VmcsField
  tpr_threshold : VmcsField
  secondary_vm_exec_control : VmcsField
  ple_gap : VmcsField
  ple_window : VmcsField
  vm_instruction_error : VmcsField
  vm_exit_reason : VmcsField
  vm_exit_intr_info : VmcsField
  vm_exit_intr_error_code : VmcsField
  idt_vectoring_info : VmcsField
  idt_vectoring_error_code : VmcsField
  vm_exit_instruction_len : VmcsField
  vmx_instruction_info : VmcsField
  guest_es_limit : VmcsField
  guest_cs_limit : VmcsField
  guest_ss_limit : VmcsField
  guest_ds_limit : VmcsField
  guest_fs_limit : VmcsField
  guest_gs_limit : VmcsField
  guest_ldtr_limit : VmcsField
  guest_tr_limit : VmcsField
  guest_gdtr_limit : VmcsField
  guest_idtr_limit : VmcsField
  guest_es_ar_bytes : VmcsField
  guest_cs_ar_bytes : VmcsField
  guest_ss_ar_bytes : VmcsField
  guest_ds_ar_bytes : VmcsField
  guest_fs_ar_bytes : VmcsField
  guest_gs_ar_bytes : VmcsField
  guest_ldtr_ar_bytes : VmcsField
  guest_tr_ar_bytes : VmcsField
  guest_interruptibility_info : VmcsField
  guest_activity_state : VmcsField
  guest_sysenter_cs : VmcsField
  host_sysenter_cs : VmcsField
  cr0_guest_host_mask : VmcsField
  cr4_guest_host_mask : VmcsField
  cr0_read_shadow : VmcsField
  cr4_read_shadow : VmcsField
  cr3_target_value0 : VmcsField
  cr3_target_value1 : VmcsField
  cr3_target_value2 : VmcsField
  cr3_target_value3 : VmcsField
  exit_qualification : VmcsField
  guest_linear_address : VmcsField
  guest_cr0 : VmcsField
  guest_cr3 : VmcsField
  guest_cr4 : VmcsField
  guest_es_base : VmcsField
  guest_cs_base : VmcsField
  guest_ss_base : VmcsField
  guest_ds_base : VmcsField
  guest_fs_base : VmcsField
  guest_gs_base : VmcsField
  guest_ldtr_base : VmcsField
  guest_tr_base : VmcsField
  guest_gdtr_base : VmcsField
  guest_idtr_base : VmcsField
  guest_dr7 : VmcsField
  guest_rsp : VmcsField
  guest_rip : VmcsField
  guest_rflags : VmcsField
  guest_pending_dbg_exceptions : VmcsField
  guest_sysenter_esp : VmcsField
  guest_sysenter_eip : VmcsField
  host_cr0 : VmcsField
  host_cr3 : VmcsField
  host_cr4 : VmcsField
  host_fs_base : VmcsField
  host_gs_base : VmcsField
  host_tr_base : VmcsField
  host_gdtr_base : VmcsField
  host_idtr_base : VmcsField
  host_sysenter_esp : VmcsField
  host_sysenter_eip : VmcsField
  host_rsp : VmcsField
  host_rip : VmcsField
