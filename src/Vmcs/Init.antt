-- ===== src/Vmcs/Init.antt =====
-- `enable_vmx` and `init_intel` of kernel/vmx.c, and `vm_init` of kernel/vm.c, which chooses between
-- the processors. Instructions of the processor are arguments.
use hv_sebek.Base.{
  ℕ, ◌+◌, ◌*◌, ◌/◌, ◌%◌, ◌-◌, ◌^◌, ◌<◌, ◌≡◌, ◌≢◌, refl, arith, Bool, true, false, not, bit_and,
  bit_or, ◌==◌, ◌||◌, if◌then◌else◌, Bool-cases, inl, inr, Words, update, u32,
}
use hv_sebek.Base.Bits.{flag_lem}
use hv_sebek.Base.Run.{Run, ok, fatal, ◌>>=◌}
use hv_sebek.Processor.{CpuidRegs, CpuInfo, x86_vendor_amd, x86_vendor_intel, early_identify_cpu}
use hv_sebek.Processor.Vendor.{vendor_of, early_identify_cpu-vendor}
use hv_sebek.Startup.Amd.{AmdGuest, test_bit, init_amd}
use hv_sebek.Vmcs.{
  VmxControls, IntelGuest, HostEnv, vmx_detect_capability, alloc_vmcs, create_vmcs,
  vmx_set_control_params,
}
use hv_sebek.Vmcs.State.{vmx_set_vm_to_mbr_start_state}

abbrev pub x86_feature_vmx : ℕ
x86_feature_vmx = 4 * 32 + 5

-- What is refused of the control register `cr0`, and of the lock of the BIOS.
unfoldable pub cr0_refused : Words → ℕ → Bool
cr0_refused msrs cr0 =
    not (bit_and (2 ^ 64 - 1 - cr0) (msrs 0x486) == 0)
    || not (bit_and cr0 (2 ^ 64 - 1 - msrs 0x487) == 0)

unfoldable pub bios_refuses : Words → Bool
bios_refuses msrs =
    let eax = u32 (msrs 0x3a) in if bit_and eax 0x1 == 0 then false else bit_and eax 0x4 == 0

-- The register `cr4` of the host is set in what the later code reads of it.
unfoldable pub enable_vmx :
    (ℕ → CpuidRegs)
    → Words
    → HostEnv
    → CpuInfo
    → VmxControls
    → Run (CpuInfo × VmxControls × HostEnv)
unfolding cr0_refused bios_refuses
enable_vmx cpuid msrs env c g =
    let c' : CpuInfo = record c { x86_capability = update c.x86_capability 5 (cpuid 1).ecx } in
    let found = vmx_detect_capability msrs g in
    let env' : HostEnv = record env { cr4 = bit_or env.cr4 0x2000 } in
    if test_bit x86_feature_vmx c'.x86_capability
    then (if bit_and found.vmx_secondary_exec_control 0x2 == 0
        then fatal
        else (if cr0_refused msrs env.cr0 || bios_refuses msrs
            then fatal
            else ok (c', found, env')))
    else fatal

-- `vmxon` is the result of the instruction, and `vmcs` what `vm->vmcs` holds before; the result has
-- the address of the control structure.
unfoldable pub init_intel :
    (ℕ → CpuidRegs) → Words → HostEnv → (ℕ → ℕ) → ℕ → CpuInfo → IntelGuest → Run (ℕ × IntelGuest)
init_intel cpuid msrs env vmxon vmcs c vm =
    enable_vmx cpuid msrs env c vm.controls >>= λ (c', g, env').
    (alloc_vmcs g.vmcs_revision_id vm.host >>= λ (vmx_on_region, h1).
    (let rest = create_vmcs g h1 >>= λ (vmcs', h2).
    (let set = vmx_set_control_params env' (record vm { controls = g; host = h2 }) >>= λ vm'.
    ok (vmcs', record vm' { fields = vmx_set_vm_to_mbr_start_state msrs vm'.fields }) in
      if vmcs' == 0 then fatal else set) in
      if vmx_on_region == 0 then fatal else (if vmxon vmcs == 0 then rest else fatal)))

pub data Started : Type 0 where
  amd : AmdGuest → Started
  intel : ℕ → IntelGuest → Started

-- `vm_init` on the guest of `vm_create`, in which `vmcs` is null.
unfoldable pub vm_init :
    (ℕ → CpuidRegs) → Words → HostEnv → (ℕ → ℕ) → CpuInfo → IntelGuest → Run Started
vm_init cpuid msrs env vmxon c vm = early_identify_cpu cpuid c >>= λ c'.
    (let on_amd = init_amd cpuid vm.n_cr3 msrs c' vm.host >>= λ g. ok (amd g) in
      let on_intel =
        init_intel cpuid msrs env vmxon 0 c' vm >>= λ (vmcs, vm'). ok (intel vmcs vm') in
      if c'.x86_vendor == x86_vendor_amd
      then on_amd
      else (if c'.x86_vendor == x86_vendor_intel then on_intel else fatal))

-- The controls that may be set are not asked for.
ept_unseen :
    (msrs : Words) (g : VmxControls)
    → g.vmx_pin_based_exec_control ≡ 0
    → g.vmx_secondary_exec_default1 ≡ 0
    → u32 (msrs 0x48b) / 2 % 2 ≡ 0
    → (bit_and (VmxControls.vmx_secondary_exec_control (vmx_detect_capability msrs g)) 0x2 == 0)
      ≡ true
unfolding vmx_detect_capability
ept_unseen msrs g first zero low =
    ground (arith, first, zero, low, flag_lem 1 (u32 (msrs 0x48b)), flag_lem 1 0)

enable_vmx-fatal :
    (cpuid : ℕ → CpuidRegs) (msrs : Words) (env : HostEnv) (c : CpuInfo) (g : VmxControls)
    → g.vmx_pin_based_exec_control ≡ 0
    → g.vmx_secondary_exec_default1 ≡ 0
    → u32 (msrs 0x48b) / 2 % 2 ≡ 0
    → enable_vmx cpuid msrs env c g ≡ fatal
unfolding enable_vmx
enable_vmx-fatal cpuid msrs env c g first zero low =
    let capability = update c.x86_capability 5 (cpuid 1).ecx in
    elim (Bool-cases (test_bit x86_feature_vmx capability)) [
      | inl has ↦ rw (has, ept_unseen msrs g first zero low) refl
      | inr hasnt ↦ rw hasnt refl
    ]

-- On a processor other than AMD's, whose registers of function 0 hold 32 bits, where enable_vmx
-- runs for the first time and the control for extended page tables is not one that must be 1, the
-- start of the guest is refused, also where that control may be 1.
pub vm_init-fatal :
    (cpuid : ℕ → CpuidRegs) (msrs : Words) (env : HostEnv) (vmxon : ℕ → ℕ) (c : CpuInfo)
    (vm : IntelGuest)
    → (cpuid 0).ebx < 2 ^ 32
    → (cpuid 0).ecx < 2 ^ 32
    → (cpuid 0).edx < 2 ^ 32
    → vendor_of (cpuid 0) ≢ x86_vendor_amd
    → vm.controls.vmx_pin_based_exec_control ≡ 0
    → vm.controls.vmx_secondary_exec_default1 ≡ 0
    → u32 (msrs 0x48b) / 2 % 2 ≡ 0
    → vm_init cpuid msrs env vmxon c vm ≡ fatal
unfolding vm_init init_intel
vm_init-fatal cpuid msrs env vmxon c vm hb hc hd other first zero low =
    let (c', e, vendor) = early_identify_cpu-vendor cpuid c hb hc hd in
    let not_amd : (c'.x86_vendor == x86_vendor_amd) ≡ false = ground (arith, vendor, other) in
    let refused = enable_vmx-fatal cpuid msrs env c' vm.controls first zero low in
    elim (Bool-cases (c'.x86_vendor == x86_vendor_intel)) [
      | inl is_intel ↦ rw (e, not_amd, is_intel, refused) refl
      | inr unknown ↦ rw (e, not_amd, unknown) refl
    ]
