-- ===== src/Startup/Amd.antt =====
-- `enable_svm` and `init_amd` of kernel/svm.c, with `set_bit` and `clear_bit` of include/bitops.h.
-- The instruction `cpuid` is an argument; the model-specific registers are 64-bit words by number.
use hv_sebek.Base.{
  ℕ, ◌+◌, ◌*◌, ◌/◌, ◌%◌, ◌-◌, ◌^◌, Bool, not, bit_and, bit_or, ltb, leb, ◌==◌, ◌&&◌, ◌||◌,
  if◌then◌else◌, Words, update, shr, u32,
}
use hv_sebek.Base.Run.{Run, ok, fatal, ◌>>=◌}
use hv_sebek.Page.{Host}
use hv_sebek.Processor.{CpuidRegs, CpuInfo, display_cacheinfo}
use hv_sebek.Startup.Block.{
  SvmBlock, cleared_block, efer_svme, set_control_params, set_vm_to_mbr_start_state,
  alloc_host_save_area, alloc_vmcb,
}

-- Of 32-bit words.
unfoldable pub set_bit : ℕ → Words → Words
set_bit nr words = update words (nr / 32) (bit_or (words (nr / 32)) (2 ^ (nr % 32)))

unfoldable pub clear_bit : ℕ → Words → Words
clear_bit nr words = update words (nr / 32) (bit_and (words (nr / 32)) (2 ^ 32 - 1 - 2 ^ (nr % 32)))

unfoldable pub test_bit : ℕ → Words → Bool
test_bit nr words = not (bit_and (2 ^ bit_and nr 31) (words (shr nr 5)) == 0)

abbrev pub x86_feature_svm : ℕ
x86_feature_svm = 6 * 32 + 2

abbrev pub msr_efer : ℕ
msr_efer = 0xc0000080

abbrev pub msr_k8_vm_hsave_pa : ℕ
msr_k8_vm_hsave_pa = 0xc0010117

unfoldable pub wrmsr : ℕ → ℕ → ℕ → Words → Words
wrmsr n eax edx msrs = update msrs n (eax + edx * 2 ^ 32)

-- What `init_amd` sets up: the control block stands at `vmcb`; its fields are held in `block`, and
-- not in the memory of `host` as well.
pub record AmdGuest : Type 0 where
  pub vmcb : ℕ
  pub block : SvmBlock
  pub cpuinfo : CpuInfo
  pub msrs : Words
  pub host : Host

-- The end of `enable_svm`, once both features are found.
unfoldable pub turn_on_svm : Words → Host → Run (Words × Host)
unfolding wrmsr
turn_on_svm msrs h =
    let eax = bit_or (u32 (msrs msr_efer)) efer_svme in
    let on = wrmsr msr_efer eax (shr (msrs msr_efer) 32) msrs in
    alloc_host_save_area h >>= λ (hsa, h').
    ok (wrmsr msr_k8_vm_hsave_pa (u32 hsa) (u32 (shr hsa 32)) on, h')

unfoldable pub enable_svm : (ℕ → CpuidRegs) → Words → CpuInfo → Host → Run (CpuInfo × Words × Host)
unfolding test_bit turn_on_svm
enable_svm cpuid msrs c h =
    let c' : CpuInfo = record c {
      x86_capability = update c.x86_capability 5 (cpuid 0x80000001).ecx;
    } in
    let on = turn_on_svm msrs h >>= λ (msrs', h'). ok (c', msrs', h') in
    let np = bit_and (cpuid 0x8000000a).edx (2 ^ 0) in
    if test_bit x86_feature_svm c'.x86_capability then (if np == 0 then fatal else on) else fatal

-- The features that `init_amd` notes.
unfoldable pub amd_features : (ℕ → CpuidRegs) → CpuInfo → CpuInfo
unfolding set_bit clear_bit
amd_features cpuid c =
    let level = (cpuid 1).eax in
    let without = clear_bit 31 c.x86_capability in
    let good =
      if (leb 0x0f48 level && ltb level 0x0f50) || leb 0x0f58 level
      then set_bit (3 * 32 + 16) without
      else without in
    record c { x86_capability = set_bit (3 * 32 + 10) good }

-- `n_cr3` is that of the guest.
unfoldable pub init_amd : (ℕ → CpuidRegs) → ℕ → Words → CpuInfo → Host → Run AmdGuest
init_amd cpuid n_cr3 msrs c h =
    enable_svm cpuid msrs (display_cacheinfo cpuid (amd_features cpuid c)) h >>= λ (c', msrs', h1).
    (alloc_vmcb h1 >>= λ (vmcb, h2).
    (set_control_params vmcb (record cleared_block { n_cr3 = n_cr3 }) h2 >>= λ (b, h3). ok (record {
      vmcb = vmcb;
      block = set_vm_to_mbr_start_state b;
      cpuinfo = c';
      msrs = msrs';
      host = h3;
    })))
