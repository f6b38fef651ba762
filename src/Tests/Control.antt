-- ===== src/Tests/Control.antt =====
-- The checks of a control block and the nested page tables at concrete inputs.
use hv_sebek.Base.{◌+◌, ◌*◌, ◌^◌, ◌≡◌, ◌↔◌, inl, refl, arith, true}
use hv_sebek.Base.Run.{ok}
use hv_sebek.Page.{Host}
use hv_sebek.Consistency.{
  ControlBlock, vmcb_check_consistency, consistency_checks, first_failure, check_efer_svme,
  check_cr0cd_cr0nw, check_cr0_32_63, check_cr4_11_63, check_dr6_32_63, check_dr7_32_63,
  check_efer_15_63, check_eferlme_cr0pg_cr4pae, check_eferlme_cr0pg_cr0pe,
  check_eferlme_cr0pg_cr4pae_csl_csd, check_vmrun_intercept, check_msr_ioio_intercept_tables,
  int_sub_bit,
}
use hv_sebek.Consistency.Checks.{
  IsConsistent, vmcb_check_consistency_iff, vmcb_check_consistency_high,
}
use hv_sebek.Nested.{vmm_pagestart, vmm_pageend, is_passed_over}
use hv_sebek.Nested.Hidden.{is_passed_over-host, is_passed_over-guest}

abbrev real_mode : ControlBlock
real_mode = record {
  efer = 2 ^ 12;
  cr0 = 0x10;
  cr4 = 0;
  dr6 = 0;
  dr7 = 0;
  general2_intercepts = 3;
  cs_l = 0;
  cs_db = 0;
}

vmcb_check_consistency_iff_example :
    (vmcb_check_consistency real_mode ≡ ok tt) ↔ IsConsistent real_mode
vmcb_check_consistency_iff_example = vmcb_check_consistency_iff real_mode

real_mode_passes : vmcb_check_consistency real_mode ≡ ok tt
unfolding vmcb_check_consistency first_failure consistency_checks check_efer_svme check_cr0cd_cr0nw
    check_cr0_32_63 check_cr4_11_63 check_dr6_32_63 check_dr7_32_63 check_efer_15_63
    check_eferlme_cr0pg_cr4pae check_eferlme_cr0pg_cr0pe check_eferlme_cr0pg_cr4pae_csl_csd
    check_vmrun_intercept check_msr_ioio_intercept_tables int_sub_bit
real_mode_passes = refl

vmcb_check_consistency_high_example :
    vmcb_check_consistency (record real_mode { cr4 = 2 ^ 63; efer = 2 ^ 63 + 2 ^ 12 }) ≡ ok tt
vmcb_check_consistency_high_example =
    vmcb_check_consistency_high real_mode (2 ^ 20) (2 ^ 16) real_mode_passes

-- A host without a taken page.
abbrev host : Host
host = record { mem = λ _. 0; nalloc = record { alloc_bitmap = λ _. 0; max_page = 128 } }

is_passed_over-host_example :
    is_passed_over 21 (vmm_pagestart 21 (2 ^ 26)) (vmm_pageend 21 (2 ^ 26) (2 ^ 24)) (32 * 2 ^ 21)
    ≡ true
is_passed_over-host_example =
    is_passed_over-host (2 ^ 26) (2 ^ 24) (omega arith) (omega arith) 0x4000123 (omega arith)
      (omega arith) (omega arith)

is_passed_over-guest_example :
    is_passed_over 21 (vmm_pagestart 21 (2 ^ 26)) (vmm_pageend 21 (2 ^ 26) (2 ^ 24)) (31 * 2 ^ 21)
    ≡ true
is_passed_over-guest_example =
    is_passed_over-guest (2 ^ 26) (2 ^ 24) (omega arith) (omega arith) 0x3f00000 (omega arith)
      (inl (omega arith))
