-- ===== src/Startup/Start.antt =====
-- The control block of kernel/svm.c as the guest starts with it.
use hv_sebek.Base.{
  ℕ, ◌+◌, ◌*◌, ◌^◌, ◌≤◌, ◌<◌, ◌⊎◌, ◌≡◌, refl, inl, inr, arith, false, leb, ltb, ◌&&◌,
}
use hv_sebek.Base.Run.{ok}
use hv_sebek.Page.{Host}
use hv_sebek.Consistency.{
  vmcb_check_consistency, consistency_checks, first_failure, stop_on, check_efer_svme,
  check_cr0cd_cr0nw, check_cr0_32_63, check_cr4_11_63, check_dr6_32_63, check_dr7_32_63,
  check_efer_15_63, check_eferlme_cr0pg_cr4pae, check_eferlme_cr0pg_cr0pe,
  check_eferlme_cr0pg_cr4pae_csl_csd, check_vmrun_intercept, check_msr_ioio_intercept_tables,
  int_sub_bit, sub_bit,
}
use hv_sebek.Startup.{create_intercept_table}
use hv_sebek.Startup.Block.{
  SegSelector, SvmBlock, cleared_block, checked, intercept_table, set_control_params, start_segment,
  set_vm_to_mbr_start_state,
}

-- A segment of real mode.
abbrev pub IsReal : SegSelector → Type 0
IsReal s = (s.base ≡ 16 * s.sel) × (s.limit ≡ 0xffff)

apart : (vmcb p size : ℕ) → vmcb < p ⊎ p + size ≤ vmcb → (leb p vmcb && ltb vmcb (p + size)) ≡ false
apart vmcb p size (inl before) = ground arith
apart vmcb p size (inr behind) = ground arith

-- Where the two tables are given pages apart from the control block, a cleared block with its
-- page table set is set up with nested paging, that page table, an identifier of the guest and
-- both tables; in the state in which the guest starts it passes all checks of a control block,
-- and its segments are those of real mode, but for ds: there the base is a quarter of what the
-- selector stands for.
pub set_control_params-start :
    (vmcb n_cr3 iopm msrpm : ℕ) (h h1 h2 : Host)
    → create_intercept_table (12 * 2 ^ 10) h ≡ ok (iopm, h1)
    → create_intercept_table (8 * 2 ^ 10) h1 ≡ ok (msrpm, h2)
    → vmcb < iopm ⊎ iopm + 12 * 2 ^ 10 ≤ vmcb
    → vmcb < msrpm ⊎ msrpm + 8 * 2 ^ 10 ≤ vmcb
    → (b : SvmBlock) × (set_control_params vmcb (record cleared_block { n_cr3 = n_cr3 }) h
        ≡ ok (b, h2))
      × (b.np_enable ≡ 1)
      × (b.n_cr3 ≡ n_cr3)
      × (b.guest_asid ≡ 1)
      × (b.iopm_base_pa ≡ iopm)
      × (b.msrpm_base_pa ≡ msrpm)
      × (vmcb_check_consistency (checked (set_vm_to_mbr_start_state b)) ≡ ok tt)
      × IsReal (SvmBlock.cs (set_vm_to_mbr_start_state b))
      × IsReal (SvmBlock.ss (set_vm_to_mbr_start_state b))
      × IsReal (SvmBlock.es (set_vm_to_mbr_start_state b))
      × IsReal (SvmBlock.fs (set_vm_to_mbr_start_state b))
      × IsReal (SvmBlock.gs (set_vm_to_mbr_start_state b))
      × (4 * SegSelector.base (SvmBlock.ds (set_vm_to_mbr_start_state b))
          ≡ 16 * SegSelector.sel (SvmBlock.ds (set_vm_to_mbr_start_state b)))
unfolding set_control_params intercept_table set_vm_to_mbr_start_state start_segment
    vmcb_check_consistency stop_on first_failure consistency_checks check_efer_svme
    check_cr0cd_cr0nw check_cr0_32_63 check_cr4_11_63 check_dr6_32_63 check_dr7_32_63
    check_efer_15_63 check_eferlme_cr0pg_cr4pae check_eferlme_cr0pg_cr0pe
    check_eferlme_cr0pg_cr4pae_csl_csd check_vmrun_intercept check_msr_ioio_intercept_tables
    int_sub_bit sub_bit
set_control_params-start vmcb n_cr3 iopm msrpm h h1 h2 first second apart1 apart2 = (
  record cleared_block {
    n_cr3 = n_cr3;
    np_enable = 1;
    guest_asid = 1;
    general2_intercepts = 3;
    iopm_base_pa = iopm;
    msrpm_base_pa = msrpm;
  },
  rw (first, apart vmcb iopm (12 * 2 ^ 10) apart1, second, apart vmcb msrpm (8 * 2 ^ 10) apart2),
  refl,
  refl,
  refl,
  refl,
  refl,
  refl,
  (refl, refl),
  (refl, refl),
  (refl, refl),
  (refl, refl),
  (refl, refl),
  refl,
)
