-- ===== src/Consistency.antt =====
-- The consistency checks of a control block in kernel/vmcb.c, from `check_efer_svme` to
-- `vmcb_check_consistency`.
pub mod Checks
use hv_sebek.Base.{
  ℕ, ◌-◌, ◌*◌, ◌%◌, ◌^◌, Bool, false, not, ◌&&◌, ◌==◌, bit_and, shr, u32, if◌then◌else◌, List, [],
  ◌∷◌, Option, none, some, String,
}
use hv_sebek.Base.Run.{Run, ok, fatal}

-- The fields of `struct vmcb` that the checks read; of the code segment, the flags `l` and `db`.
pub record ControlBlock : Type 0 where
  pub efer : ℕ
  pub cr0 : ℕ
  pub cr4 : ℕ
  pub dr6 : ℕ
  pub dr7 : ℕ
  pub general2_intercepts : ℕ
  pub cs_l : ℕ
  pub cs_db : ℕ

-- `value & FLAG` as a condition.
abbrev pub has_flag : ℕ → ℕ → Bool
has_flag value flag = not (bit_and value flag == 0)

unfoldable pub sub_bit : ℕ → ℕ → ℕ → ℕ
sub_bit x start len = bit_and (shr x start) (2 ^ len - 1)

-- `return SUB_BIT(...)` from a function of type `int`, as a condition: 32 bits are left of it.
unfoldable pub int_sub_bit : ℕ → ℕ → ℕ → Bool
unfolding sub_bit
int_sub_bit x start len = not (u32 (sub_bit x start len) == 0)

-- Each check holds where the control block is refused.
unfoldable pub check_efer_svme : ControlBlock → Bool
check_efer_svme vmcb = not (has_flag vmcb.efer (2 ^ 12))

unfoldable pub check_cr0cd_cr0nw : ControlBlock → Bool
check_cr0cd_cr0nw vmcb = not (has_flag vmcb.cr0 (2 ^ 30)) && has_flag vmcb.cr0 (2 ^ 29)

unfoldable pub check_cr0_32_63 : ControlBlock → Bool
check_cr0_32_63 vmcb = int_sub_bit vmcb.cr0 32 32

unfoldable pub check_cr4_11_63 : ControlBlock → Bool
check_cr4_11_63 vmcb = int_sub_bit vmcb.cr4 11 53

unfoldable pub check_dr6_32_63 : ControlBlock → Bool
check_dr6_32_63 vmcb = int_sub_bit vmcb.dr6 32 32

unfoldable pub check_dr7_32_63 : ControlBlock → Bool
check_dr7_32_63 vmcb = int_sub_bit vmcb.dr7 32 32

unfoldable pub check_efer_15_63 : ControlBlock → Bool
check_efer_15_63 vmcb = int_sub_bit vmcb.efer 15 49

unfoldable pub check_eferlme_cr0pg_cr4pae : ControlBlock → Bool
check_eferlme_cr0pg_cr4pae vmcb =
    has_flag vmcb.efer (2 ^ 8) && has_flag vmcb.cr0 (2 ^ 31) && not (has_flag vmcb.cr4 (2 ^ 5))

unfoldable pub check_eferlme_cr0pg_cr0pe : ControlBlock → Bool
check_eferlme_cr0pg_cr0pe vmcb =
    has_flag vmcb.efer (2 ^ 8) && has_flag vmcb.cr0 (2 ^ 31) && not (has_flag vmcb.cr0 (2 ^ 0))

unfoldable pub check_eferlme_cr0pg_cr4pae_csl_csd : ControlBlock → Bool
check_eferlme_cr0pg_cr4pae_csl_csd vmcb =
    has_flag vmcb.efer (2 ^ 8)
    && has_flag vmcb.cr0 (2 ^ 31)
    && has_flag vmcb.cr4 (2 ^ 5)
    && not (vmcb.cs_l == 0)
    && not (vmcb.cs_db == 0)

unfoldable pub check_vmrun_intercept : ControlBlock → Bool
check_vmrun_intercept vmcb = not (has_flag vmcb.general2_intercepts (2 ^ 0))

unfoldable pub check_msr_ioio_intercept_tables : ControlBlock → Bool
check_msr_ioio_intercept_tables vmcb = false

-- `tbl`
unfoldable pub consistency_checks : List ((ControlBlock → Bool) × String)
consistency_checks =
    (check_efer_svme, "EFER.SVME is not set.\n")
    ∷ (check_cr0cd_cr0nw, "CR0.CD is not set, and CR0.NW is set.\n")
    ∷ (check_cr0_32_63, "CR0[32:63] are not zero.\n")
    ∷ (check_cr4_11_63, "CR4[11:63] are not zero.\n")
    ∷ (check_dr6_32_63, "DR6[32:63] are not zero.\n")
    ∷ (check_dr7_32_63, "DR7[32:63] are not zero.\n")
    ∷ (check_efer_15_63, "EFER[15:63] are not zero.\n")
    ∷ (check_eferlme_cr0pg_cr4pae, "EFER.LME is set, CR0.PG is set, and CR4.PAE is not set.\n")
    ∷ (check_eferlme_cr0pg_cr0pe, "EFER.LME is set, CR0.PG is set, and CR4.PE is not set.\n")
    ∷ (check_eferlme_cr0pg_cr4pae_csl_csd, "EFER.LME, CR0.PG, CR4.PAE, CS.L, and CS.D are set.\n")
    ∷ (check_vmrun_intercept, "The VMRUN intercept bit is clear.\n")
    ∷ (check_msr_ioio_intercept_tables, "Wrong The MSR or IOIO intercept tables address.\n")
    ∷ []

-- The loop over the table: what is reported before the machine stops, if it does.
unfoldable pub first_failure : List ((ControlBlock → Bool) × String) → ControlBlock → Option String
first_failure [] vmcb = none
first_failure (check ∷ checks) vmcb =
    let rest = first_failure checks vmcb in if check.0 vmcb then some check.1 else rest

unfoldable pub stop_on : Option String → Run (Unit {0})
stop_on none = ok tt
stop_on (some error_msg) = fatal

unfoldable pub vmcb_check_consistency : ControlBlock → Run (Unit {0})
unfolding stop_on
vmcb_check_consistency vmcb = stop_on (first_failure consistency_checks vmcb)
