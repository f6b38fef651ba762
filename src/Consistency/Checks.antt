-- ===== src/Consistency/Checks.antt =====
-- Which control blocks pass `vmcb_check_consistency` of kernel/vmcb.c.
use hv_sebek.Base.{
  ℕ, ◌+◌, ◌*◌, ◌/◌, ◌%◌, ◌^◌, ◌≤◌, ◌<◌, min, ◌⊎◌, ◌≡◌, ◌↔◌, refl, arith, Bool, false, not, ◌==◌,
  List, [], ◌∷◌, Bool-cases, inl, inr, String,
}
use hv_sebek.Base.Bits.{bit_and_mask, flag_lem}
use hv_sebek.Base.Run.{ok}
use hv_sebek.Consistency.{
  ControlBlock, sub_bit, int_sub_bit, check_efer_svme, check_cr0cd_cr0nw, check_cr0_32_63,
  check_cr4_11_63, check_dr6_32_63, check_dr7_32_63, check_efer_15_63, check_eferlme_cr0pg_cr4pae,
  check_eferlme_cr0pg_cr0pe, check_eferlme_cr0pg_cr4pae_csl_csd, check_vmrun_intercept,
  check_msr_ioio_intercept_tables, consistency_checks, first_failure, stop_on,
  vmcb_check_consistency,
}

-- Bit `n` of a register.
abbrev pub flag : ℕ → ℕ → ℕ
flag n value = value / 2 ^ n % 2

-- The requirements in the order of the table, as far as the checks see them: of the bits of CR4
-- from 11 on, 32 are read, and 32 of the bits of EFER from 15 on.
pub record IsConsistent (vmcb : ControlBlock) : Type 0 where
  pub svme : flag 12 vmcb.efer ≡ 1
  pub caches : flag 29 vmcb.cr0 ≤ flag 30 vmcb.cr0
  pub cr0_high : vmcb.cr0 / 2 ^ 32 % 2 ^ 32 ≡ 0
  pub cr4_high : vmcb.cr4 / 2 ^ 11 % 2 ^ 32 ≡ 0
  pub dr6_high : vmcb.dr6 / 2 ^ 32 % 2 ^ 32 ≡ 0
  pub dr7_high : vmcb.dr7 / 2 ^ 32 % 2 ^ 32 ≡ 0
  pub efer_high : vmcb.efer / 2 ^ 15 % 2 ^ 32 ≡ 0
  pub long_pae : min (flag 8 vmcb.efer) (flag 31 vmcb.cr0) ≤ flag 5 vmcb.cr4
  pub long_pe : min (flag 8 vmcb.efer) (flag 31 vmcb.cr0) ≤ flag 0 vmcb.cr0
  pub code :
      flag 8 vmcb.efer + flag 31 vmcb.cr0 + flag 5 vmcb.cr4 < 3 ⊎ vmcb.cs_l ≡ 0 ⊎ vmcb.cs_db ≡ 0
  pub vmrun : flag 0 vmcb.general2_intercepts ≡ 1

int_sub_bit_lem :
    (x start len : ℕ) → int_sub_bit x start len ≡ not (x / 2 ^ start % 2 ^ len % 2 ^ 32 == 0)
unfolding int_sub_bit sub_bit
int_sub_bit_lem x start len = rw (bit_and_mask len (x / 2 ^ start))

-- No check refuses.
abbrev AllPass : List ((ControlBlock → Bool) × String) → ControlBlock → Type 0
AllPass [] vmcb = Unit
AllPass (check ∷ checks) vmcb = (check.0 vmcb ≡ false) × AllPass checks vmcb

pass-AllPass :
    (checks : List ((ControlBlock → Bool) × String)) (vmcb : ControlBlock)
    → stop_on (first_failure checks vmcb) ≡ ok tt
    → AllPass checks vmcb
unfolding stop_on first_failure
pass-AllPass [] vmcb h = tt
pass-AllPass (check ∷ checks) vmcb h = elim (Bool-cases (check.0 vmcb)) [
  | inl hit ↦ absurd (ground (arith, hit))
  | inr miss ↦ (miss, pass-AllPass checks vmcb (ground (arith, miss)))
]

AllPass-pass :
    (checks : List ((ControlBlock → Bool) × String)) (vmcb : ControlBlock)
    → AllPass checks vmcb
    → stop_on (first_failure checks vmcb) ≡ ok tt
unfolding stop_on first_failure
AllPass-pass [] vmcb all = refl
AllPass-pass (check ∷ checks) vmcb all = rw (all.0) (AllPass-pass checks vmcb all.1)

module _ (vmcb : ControlBlock) where
  svme_iff : (check_efer_svme vmcb ≡ false) ↔ (flag 12 vmcb.efer ≡ 1)
  unfolding check_efer_svme
  svme_iff =
      (λ h. ground (arith, h, flag_lem 12 vmcb.efer), λ h. ground (arith, h, flag_lem 12 vmcb.efer))

  caches_iff : (check_cr0cd_cr0nw vmcb ≡ false) ↔ (flag 29 vmcb.cr0 ≤ flag 30 vmcb.cr0)
  unfolding check_cr0cd_cr0nw
  caches_iff = (
    λ h. ground (arith, h, flag_lem 29 vmcb.cr0, flag_lem 30 vmcb.cr0),
    λ h. ground (arith, h, flag_lem 29 vmcb.cr0, flag_lem 30 vmcb.cr0),
  )

  high_iff :
      (x start len : ℕ) → (int_sub_bit x start len ≡ false) ↔ (x / 2 ^ start % 2 ^ len % 2 ^ 32 ≡ 0)
  high_iff x start len = (
    λ h. ground (arith, h, int_sub_bit_lem x start len),
    λ h. ground (arith, h, int_sub_bit_lem x start len),
  )

  cr4_high_iff : (check_cr4_11_63 vmcb ≡ false) ↔ (vmcb.cr4 / 2 ^ 11 % 2 ^ 32 ≡ 0)
  unfolding check_cr4_11_63
  cr4_high_iff = (
    λ h. omega (arith, (high_iff vmcb.cr4 11 53).0 h),
    λ h. (high_iff vmcb.cr4 11 53).1 (omega (arith, h)),
  )

  efer_high_iff : (check_efer_15_63 vmcb ≡ false) ↔ (vmcb.efer / 2 ^ 15 % 2 ^ 32 ≡ 0)
  unfolding check_efer_15_63
  efer_high_iff = (
    λ h. omega (arith, (high_iff vmcb.efer 15 49).0 h),
    λ h. (high_iff vmcb.efer 15 49).1 (omega (arith, h)),
  )

  cr0_high_iff : (check_cr0_32_63 vmcb ≡ false) ↔ (vmcb.cr0 / 2 ^ 32 % 2 ^ 32 ≡ 0)
  unfolding check_cr0_32_63
  cr0_high_iff = (
    λ h. omega (arith, (high_iff vmcb.cr0 32 32).0 h),
    λ h. (high_iff vmcb.cr0 32 32).1 (omega (arith, h)),
  )

  dr6_high_iff : (check_dr6_32_63 vmcb ≡ false) ↔ (vmcb.dr6 / 2 ^ 32 % 2 ^ 32 ≡ 0)
  unfolding check_dr6_32_63
  dr6_high_iff = (
    λ h. omega (arith, (high_iff vmcb.dr6 32 32).0 h),
    λ h. (high_iff vmcb.dr6 32 32).1 (omega (arith, h)),
  )

  dr7_high_iff : (check_dr7_32_63 vmcb ≡ false) ↔ (vmcb.dr7 / 2 ^ 32 % 2 ^ 32 ≡ 0)
  unfolding check_dr7_32_63
  dr7_high_iff = (
    λ h. omega (arith, (high_iff vmcb.dr7 32 32).0 h),
    λ h. (high_iff vmcb.dr7 32 32).1 (omega (arith, h)),
  )

  long_pae_iff :
      (check_eferlme_cr0pg_cr4pae vmcb ≡ false)
      ↔ (min (flag 8 vmcb.efer) (flag 31 vmcb.cr0) ≤ flag 5 vmcb.cr4)
  unfolding check_eferlme_cr0pg_cr4pae
  long_pae_iff = (
    λ h. ground (arith, h, flag_lem 8 vmcb.efer, flag_lem 31 vmcb.cr0, flag_lem 5 vmcb.cr4),
    λ h. ground (arith, h, flag_lem 8 vmcb.efer, flag_lem 31 vmcb.cr0, flag_lem 5 vmcb.cr4),
  )

  long_pe_iff :
      (check_eferlme_cr0pg_cr0pe vmcb ≡ false)
      ↔ (min (flag 8 vmcb.efer) (flag 31 vmcb.cr0) ≤ flag 0 vmcb.cr0)
  unfolding check_eferlme_cr0pg_cr0pe
  long_pe_iff = (
    λ h. ground (arith, h, flag_lem 8 vmcb.efer, flag_lem 31 vmcb.cr0, flag_lem 0 vmcb.cr0),
    λ h. ground (arith, h, flag_lem 8 vmcb.efer, flag_lem 31 vmcb.cr0, flag_lem 0 vmcb.cr0),
  )

  code_iff :
      (check_eferlme_cr0pg_cr4pae_csl_csd vmcb ≡ false)
      ↔ (flag 8 vmcb.efer + flag 31 vmcb.cr0 + flag 5 vmcb.cr4 < 3 ⊎ vmcb.cs_l ≡ 0 ⊎ vmcb.cs_db ≡ 0)
  unfolding check_eferlme_cr0pg_cr4pae_csl_csd
  code_iff = (
    λ h. ground (arith, h, flag_lem 8 vmcb.efer, flag_lem 31 vmcb.cr0, flag_lem 5 vmcb.cr4),
    λ h. ground (arith, h, flag_lem 8 vmcb.efer, flag_lem 31 vmcb.cr0, flag_lem 5 vmcb.cr4),
  )

  vmrun_iff : (check_vmrun_intercept vmcb ≡ false) ↔ (flag 0 vmcb.general2_intercepts ≡ 1)
  unfolding check_vmrun_intercept
  vmrun_iff = (
    λ h. ground (arith, h, flag_lem 0 vmcb.general2_intercepts),
    λ h. ground (arith, h, flag_lem 0 vmcb.general2_intercepts),
  )

  to_consistent : AllPass consistency_checks vmcb → IsConsistent vmcb
  unfolding consistency_checks
  to_consistent
        (
          svme,
          (
            caches,
            (
              cr0_high,
              (
                cr4_high,
                (dr6_high, (dr7_high, (efer_high, (long_pae, (long_pe, (code, (vmrun, tables))))))),
              ),
            ),
          ),
        ) =
      record {
        svme = svme_iff.0 svme;
        caches = caches_iff.0 caches;
        cr0_high = cr0_high_iff.0 cr0_high;
        cr4_high = cr4_high_iff.0 cr4_high;
        dr6_high = dr6_high_iff.0 dr6_high;
        dr7_high = dr7_high_iff.0 dr7_high;
        efer_high = efer_high_iff.0 efer_high;
        long_pae = long_pae_iff.0 long_pae;
        long_pe = long_pe_iff.0 long_pe;
        code = code_iff.0 code;
        vmrun = vmrun_iff.0 vmrun;
      }

  from_consistent : IsConsistent vmcb → AllPass consistency_checks vmcb
  unfolding consistency_checks check_msr_ioio_intercept_tables
  from_consistent c = (
    svme_iff.1 c.svme,
    (
      caches_iff.1 c.caches,
      (
        cr0_high_iff.1 c.cr0_high,
        (
          cr4_high_iff.1 c.cr4_high,
          (
            dr6_high_iff.1 c.dr6_high,
            (
              dr7_high_iff.1 c.dr7_high,
              (
                efer_high_iff.1 c.efer_high,
                (
                  long_pae_iff.1 c.long_pae,
                  (long_pe_iff.1 c.long_pe, (code_iff.1 c.code, (vmrun_iff.1 c.vmrun, (refl, tt)))),
                ),
              ),
            ),
          ),
        ),
      ),
    ),
  )

-- The machine goes on exactly where the requirements hold.
pub vmcb_check_consistency_iff :
    (vmcb : ControlBlock) → (vmcb_check_consistency vmcb ≡ ok tt) ↔ IsConsistent vmcb
unfolding vmcb_check_consistency
vmcb_check_consistency_iff vmcb = (
  λ passed. to_consistent vmcb (pass-AllPass consistency_checks vmcb passed),
  λ c. AllPass-pass consistency_checks vmcb (from_consistent vmcb c),
)

-- A control block that passes still does with other bits from 43 on in CR4 and from 47 on in EFER,
-- though all of them have to be 0: the checks return an `int`, and lose the upper bits.
pub vmcb_check_consistency_high :
    (vmcb : ControlBlock) (cr4_bits efer_bits : ℕ)
    → vmcb_check_consistency vmcb ≡ ok tt
    → vmcb_check_consistency
        (record vmcb { cr4 = vmcb.cr4 + cr4_bits * 2 ^ 43; efer = vmcb.efer + efer_bits * 2 ^ 47 })
      ≡ ok tt
vmcb_check_consistency_high vmcb cr4_bits efer_bits passed =
    let c = (vmcb_check_consistency_iff vmcb).0 passed in
    (vmcb_check_consistency_iff _).1 (record {
      svme = omega (arith, c.svme);
      caches = c.caches;
      cr0_high = c.cr0_high;
      cr4_high = omega (arith, c.cr4_high);
      dr6_high = c.dr6_high;
      dr7_high = c.dr7_high;
      efer_high = omega (arith, c.efer_high);
      long_pae = omega (arith, c.long_pae);
      long_pe = omega (arith, c.long_pe);
      code = ground (arith, c.code);
      vmrun = c.vmrun;
    })
