-- ===== src/Processor.antt =====
-- kernel/cpu.c and `struct cpuinfo_x86` of include/cpu.h: what is found out about the processor.
-- The instruction `cpuid` is an argument, which gives the four registers for each function.
pub mod Vendor
use hv_sebek.Base.{
  ℕ, zero, suc, ◌+◌, ◌*◌, ◌/◌, ◌%◌, ◌-◌, ◌^◌, Bool, not, List, [], ◌∷◌, ◌++◌, drop, bit_and, leb,
  ◌==◌, if◌then◌else◌, Words, update, shr, u32,
}
use hv_sebek.Base.Run.{Run, ok, ◌>>=◌}
use hv_sebek.CString.{strncmp}

pub record CpuidRegs : Type 0 where
  pub eax : ℕ
  pub ebx : ℕ
  pub ecx : ℕ
  pub edx : ℕ

abbrev pub x86_vendor_intel : ℕ
x86_vendor_intel = 0

abbrev pub x86_vendor_amd : ℕ
x86_vendor_amd = 2

abbrev pub x86_vendor_unknown : ℕ
x86_vendor_unknown = 0xff

-- The fields that cpu.c sets; `-1` is held at 32 bits.
pub record CpuInfo : Type 0 where
  pub x86 : ℕ
  pub x86_vendor : ℕ
  pub x86_model : ℕ
  pub x86_mask : ℕ
  pub cpuid_max_stdfunc : ℕ
  pub cpuid_max_exfunc : ℕ
  pub x86_capability : Words
  pub x86_vendor_id : List ℕ
  pub x86_model_id : List ℕ
  pub x86_cache_size : ℕ
  pub x86_cache_alignment : ℕ
  pub x86_clflush_size : ℕ
  pub x86_tlbsize : ℕ
  pub x86_virt_bits : ℕ
  pub x86_phys_bits : ℕ
  pub x86_power : ℕ
  pub x86_max_cores : ℕ

unfoldable pub display_cacheinfo : (ℕ → CpuidRegs) → CpuInfo → CpuInfo
display_cacheinfo cpuid c =
    let n = c.cpuid_max_exfunc in
    let r5 = cpuid 0x80000005 in
    let r6 = cpuid 0x80000006 in
    let r8 = cpuid 0x80000008 in
    let c5 : CpuInfo =
      if leb 0x80000005 n
      then record c { x86_cache_size = shr r5.ecx 24 + shr r5.edx 24; x86_tlbsize = 0 }
      else c in
    let c6 : CpuInfo =
      if leb 0x80000006 n
      then record c5 {
        x86_cache_size = shr r6.ecx 16;
        x86_tlbsize = u32 (c5.x86_tlbsize + (bit_and (shr r6.ebx 16) 0xfff + bit_and r6.ebx 0xfff));
      }
      else c5 in
    let c7 : CpuInfo =
      if leb 0x80000007 n then record c6 { x86_power = (cpuid 0x80000007).edx } else c6 in
    if leb 0x80000008 n
    then record c7 {
      x86_virt_bits = bit_and (shr r8.eax 8) 0xff;
      x86_phys_bits = bit_and r8.eax 0xff;
    }
    else c7

-- A word as it stands in memory.
unfoldable pub bytes4 : ℕ → List ℕ
bytes4 w = w % 256 ∷ w / 256 % 256 ∷ w / 2 ^ 16 % 256 ∷ w / 2 ^ 24 % 256 ∷ []

unfoldable pub bytes16 : CpuidRegs → List ℕ
unfolding bytes4
bytes16 r = bytes4 r.eax ++ (bytes4 r.ebx ++ (bytes4 r.ecx ++ bytes4 r.edx))

unfoldable pub get_model_name : (ℕ → CpuidRegs) → CpuInfo → CpuInfo
unfolding bytes16
get_model_name cpuid c = record c {
  x86_model_id =
      bytes16 (cpuid 0x80000002)
      ++ (bytes16 (cpuid 0x80000003)
          ++ (bytes16 (cpuid 0x80000004) ++ (0 ∷ drop 49 c.x86_model_id)));
}

-- `"AuthenticAMD"` and `"GenuineIntel"`, with the bytes that end them.
abbrev pub authentic_amd : List ℕ
authentic_amd =
    0x41 ∷ 0x75 ∷ 0x74 ∷ 0x68 ∷ 0x65 ∷ 0x6e ∷ 0x74 ∷ 0x69 ∷ 0x63 ∷ 0x41 ∷ 0x4d ∷ 0x44 ∷ []

abbrev pub genuine_intel : List ℕ
genuine_intel =
    0x47 ∷ 0x65 ∷ 0x6e ∷ 0x75 ∷ 0x69 ∷ 0x6e ∷ 0x65 ∷ 0x49 ∷ 0x6e ∷ 0x74 ∷ 0x65 ∷ 0x6c ∷ []

-- The `outf` of the vendor's name is left out.
unfoldable pub get_cpu_vendor : CpuInfo → Run CpuInfo
get_cpu_vendor c = strncmp c.x86_vendor_id (authentic_amd ++ (0 ∷ [])) 12 >>= λ amd.
    (strncmp c.x86_vendor_id (genuine_intel ++ (0 ∷ [])) 12 >>= λ intel. ok (record c {
      x86_vendor =
          if amd == 0
          then x86_vendor_amd
          else (if intel == 0 then x86_vendor_intel else x86_vendor_unknown);
    }))

-- The fields before the first `cpuid`.
unfoldable pub unset_cpuinfo : CpuInfo → CpuInfo
unset_cpuinfo c = record c {
  x86_cache_size = 2 ^ 32 - 1;
  x86_vendor = x86_vendor_unknown;
  x86_model = 0;
  x86_mask = 0;
  x86_vendor_id = 0 ∷ drop 1 c.x86_vendor_id;
  x86_model_id = 0 ∷ drop 1 c.x86_model_id;
  x86_clflush_size = 64;
  x86_cache_alignment = 64;
  x86_max_cores = 1;
  cpuid_max_exfunc = 0;
  x86_capability = λ i. 0;
}

-- Function 0: the three registers stand in the order `ebx`, `edx`, `ecx`.
unfoldable pub vendor_registers : CpuidRegs → CpuInfo → CpuInfo
unfolding bytes4
vendor_registers r c = record c {
  cpuid_max_stdfunc = r.eax;
  x86_vendor_id = bytes4 r.ebx ++ (bytes4 r.edx ++ (bytes4 r.ecx ++ drop 12 c.x86_vendor_id));
}

-- Function 1: `tfms` is `eax` and `misc` is `ebx`.
unfoldable pub standard_capabilities : CpuidRegs → CpuInfo → CpuInfo
standard_capabilities r c =
    let tfms = r.eax in
    let family = bit_and (shr tfms 8) 0xf in
    let model = bit_and (shr tfms 4) 0xf in
    let capability = update (update c.x86_capability 4 r.ecx) 0 r.edx in
    record c {
      x86_capability = capability;
      x86 = if leb 6 family then (family + bit_and (shr tfms 20) 0xff) % 256 else family;
      x86_model = if leb 6 family then (model + bit_and (shr tfms 16) 0xf * 2 ^ 4) % 256 else model;
      x86_mask = bit_and tfms 0xf;
      x86_clflush_size =
          if bit_and (capability 0) (2 ^ 19) == 0
          then c.x86_clflush_size
          else bit_and (shr r.ebx 8) 0xff * 8;
    }

unfoldable pub amd_capabilities : (ℕ → CpuidRegs) → CpuInfo → CpuInfo
amd_capabilities cpuid c =
    let xlvl = (cpuid 0x80000000).eax in
    let r1 = cpuid 0x80000001 in
    let c0 : CpuInfo = record c { cpuid_max_exfunc = xlvl } in
    let c1 : CpuInfo =
      if leb 0x80000001 xlvl
      then record c0 { x86_capability = update (update c0.x86_capability 1 r1.edx) 6 r1.ecx }
      else c0 in
    let c4 : CpuInfo = if leb 0x80000004 xlvl then get_model_name cpuid c1 else c1 in
    if bit_and xlvl 0xffff0000 == 0x80000000 then c4 else c0

unfoldable pub transmeta_capabilities : (ℕ → CpuidRegs) → CpuInfo → CpuInfo
transmeta_capabilities cpuid c =
    let xlvl = (cpuid 0x80860000).eax in
    let c1 : CpuInfo =
      if leb 0x80860001 xlvl
      then record c { x86_capability = update c.x86_capability 2 (cpuid 0x80860001).edx }
      else c in
    if bit_and xlvl 0xffff0000 == 0x80860000 then c1 else c

unfoldable pub early_identify_cpu : (ℕ → CpuidRegs) → CpuInfo → Run CpuInfo
early_identify_cpu cpuid c = get_cpu_vendor (vendor_registers (cpuid 0) (unset_cpuinfo c)) >>= λ c1.
    (let c2 : CpuInfo =
        if leb 1 c1.cpuid_max_stdfunc
        then standard_capabilities (cpuid 1) c1
        else record c1 { x86 = 4 } in
      ok (transmeta_capabilities cpuid (amd_capabilities cpuid c2)))
