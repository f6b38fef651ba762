-- ===== src/Processor/Vendor.antt =====
-- Which vendor `early_identify_cpu` of kernel/cpu.c finds.
use hv_sebek.Base.{
  ℕ, ◌/◌, ◌%◌, ◌^◌, ◌<◌, ◌≡◌, ◌∙◌, ◌↔◌, refl, arith, Bool, true, false, ltb, List, [], ◌∷◌, ◌++◌,
  drop, Bool-cases, inl, inr, ◌==◌, ◌&&◌, if◌then◌else◌, leb,
}
use hv_sebek.Base.Run.{ok}
use hv_sebek.CString.{strncmp}
use hv_sebek.CString.Compare.{Bytes, Text, strncmp-Bytes}
use hv_sebek.Processor.{
  CpuidRegs, CpuInfo, x86_vendor_amd, x86_vendor_intel, x86_vendor_unknown, bytes4, authentic_amd,
  genuine_intel, get_cpu_vendor, unset_cpuinfo, vendor_registers, standard_capabilities,
  get_model_name, amd_capabilities, transmeta_capabilities, early_identify_cpu,
}

-- The bytes of the three registers in the order of the name.
unfoldable vendor_id : CpuidRegs → List ℕ
vendor_id r = bytes4 r.ebx ++ (bytes4 r.edx ++ bytes4 r.ecx)

-- The registers that function 0 gives.
abbrev named : ℕ → ℕ → ℕ → CpuidRegs → Bool
named ebx edx ecx r = r.ebx == ebx && (r.edx == edx && r.ecx == ecx)

-- The vendor by the registers alone.
abbrev pub vendor_of : CpuidRegs → ℕ
vendor_of r =
    if named 0x68747541 0x69746e65 0x444d4163 r
    then x86_vendor_amd
    else (if named 0x756e6547 0x49656e69 0x6c65746e r then x86_vendor_intel else x86_vendor_unknown)

bytes4-Bytes : (w : ℕ) (s : List ℕ) → Bytes s → Bytes (bytes4 w ++ s)
unfolding bytes4
bytes4-Bytes w s bytes = (omega arith, (omega arith, (omega arith, (omega arith, bytes))))

bytes4-injective :
    (v w : ℕ) {s t : List ℕ}
    → v < 2 ^ 32
    → w < 2 ^ 32
    → bytes4 v ++ s ≡ bytes4 w ++ t
    → (v ≡ w) × (s ≡ t)
unfolding bytes4
bytes4-injective v w {s} {t} hv hw e =
    let e0 : v % 256 ≡ w % 256 = cc e in
    let e1 : v / 256 % 256 ≡ w / 256 % 256 = cc e in
    let e2 : v / 2 ^ 16 % 256 ≡ w / 2 ^ 16 % 256 = cc e in
    let e3 : v / 2 ^ 24 % 256 ≡ w / 2 ^ 24 % 256 = cc e in (omega arith, cc e)

-- `Text`, as a test.
characters : List ℕ → Bool
characters [] = true
characters (c ∷ s) = (ltb 0 c && ltb c 256) && characters s

characters-Text : (s : List ℕ) → characters s ≡ true → Text s
unfolding characters
characters-Text [] h = tt
characters-Text (c ∷ s) h = (ground arith, ground arith, characters-Text s (ground arith))

module _ (r : CpuidRegs) (b : r.ebx < 2 ^ 32) (c : r.ecx < 2 ^ 32) (d : r.edx < 2 ^ 32) where
  vendor_id_iff :
      (ebx edx ecx : ℕ)
      → ebx < 2 ^ 32
      → edx < 2 ^ 32
      → ecx < 2 ^ 32
      → (vendor_id r ≡ bytes4 ebx ++ (bytes4 edx ++ bytes4 ecx)) ↔ (named ebx edx ecx r ≡ true)
  unfolding vendor_id bytes4
  vendor_id_iff ebx edx ecx hb hd hc = (
    λ e.
        let (first, e1) = bytes4-injective r.ebx ebx b hb e in
        let (second, e2) = bytes4-injective r.edx edx d hd e1 in
        let (third, e3) = bytes4-injective r.ecx ecx {s = []} {t = []} c hc e2 in ground arith,
    λ same.
        let first : r.ebx ≡ ebx = ground arith in
        let second : r.edx ≡ edx = ground arith in
        let third : r.ecx ≡ ecx = ground arith in rw (first, second, third) refl,
  )

  vendor_id-Bytes : Bytes (vendor_id r)
  unfolding vendor_id bytes4
  vendor_id-Bytes =
      bytes4-Bytes r.ebx (bytes4 r.edx ++ (bytes4 r.ecx ++ []))
        (bytes4-Bytes r.edx (bytes4 r.ecx ++ []) (bytes4-Bytes r.ecx [] tt))

  -- One of the two comparisons.
  compares :
      (ebx edx ecx : ℕ) (rest : List ℕ)
      → ebx < 2 ^ 32
      → edx < 2 ^ 32
      → ecx < 2 ^ 32
      → Text (bytes4 ebx ++ (bytes4 edx ++ bytes4 ecx))
      → (n : ℕ) × (strncmp
            (vendor_id r ++ rest)
            ((bytes4 ebx ++ (bytes4 edx ++ bytes4 ecx)) ++ (0 ∷ []))
            12
          ≡ ok n)
        × ((n == 0) ≡ named ebx edx ecx r)
  unfolding bytes4 vendor_id
  compares ebx edx ecx rest hb hd hc text =
      let (n, e, iff) =
        strncmp-Bytes (vendor_id r) (bytes4 ebx ++ (bytes4 edx ++ bytes4 ecx)) rest (0 ∷ [])
          vendor_id-Bytes text refl in
      let (to, from) = vendor_id_iff ebx edx ecx hb hd hc in
      (
        n,
        e,
        elim (Bool-cases (n == 0)) [
          | inl zero_n ↦ let z : n ≡ 0 = ground arith in rw (zero_n, to (iff.0 z))
          | inr other ↦ elim (Bool-cases (named ebx edx ecx r)) [
            | inl same ↦ absurd (ground (arith, iff.1 (from same), other))
            | inr differ ↦ rw (other, differ)
          ]
        ],
      )

  get_cpu_vendor_lem :
      (c : CpuInfo)
      → (c' : CpuInfo) × (get_cpu_vendor (vendor_registers r c) ≡ ok c')
        × (c'.x86_vendor ≡ vendor_of r)
  unfolding get_cpu_vendor vendor_registers bytes4 vendor_id characters
  get_cpu_vendor_lem c =
      let rest = drop 12 c.x86_vendor_id in
      let (n, e, amd) =
        compares 0x68747541 0x69746e65 0x444d4163 rest (omega arith) (omega arith) (omega arith)
          (characters-Text authentic_amd refl) in
      let (m, f, intel) =
        compares 0x756e6547 0x49656e69 0x6c65746e rest (omega arith) (omega arith) (omega arith)
          (characters-Text genuine_intel refl) in
      (
        record (vendor_registers r c) {
          x86_vendor =
              if n == 0
              then x86_vendor_amd
              else (if m == 0 then x86_vendor_intel else x86_vendor_unknown);
        },
        rw (e, f),
        rw (amd, intel),
      )

kept-amd :
    (cpuid : ℕ → CpuidRegs) (c : CpuInfo) → (amd_capabilities cpuid c).x86_vendor ≡ c.x86_vendor
unfolding amd_capabilities get_model_name
kept-amd cpuid c = ground arith

kept-transmeta :
    (cpuid : ℕ → CpuidRegs) (c : CpuInfo)
    → (transmeta_capabilities cpuid c).x86_vendor ≡ c.x86_vendor
unfolding transmeta_capabilities
kept-transmeta cpuid c = ground arith

kept-standard :
    (r : CpuidRegs) (c : CpuInfo) (b : Bool)
    → ◌≡◌ {A = ℕ}
        (CpuInfo.x86_vendor (if b then standard_capabilities r c else record c { x86 = 4 }))
        c.x86_vendor
unfolding standard_capabilities
kept-standard r c true = refl
kept-standard r c false = refl

-- Where the registers of function 0 hold 32 bits, the processor is identified, whatever stood in
-- the record, which is not initialised: as AMD's or Intel's by the three registers that spell the
-- name, and otherwise as unknown; what the later functions give does not change that.
pub early_identify_cpu-vendor :
    (cpuid : ℕ → CpuidRegs) (c : CpuInfo)
    → (cpuid 0).ebx < 2 ^ 32
    → (cpuid 0).ecx < 2 ^ 32
    → (cpuid 0).edx < 2 ^ 32
    → (c' : CpuInfo) × (early_identify_cpu cpuid c ≡ ok c') × (c'.x86_vendor ≡ vendor_of (cpuid 0))
unfolding early_identify_cpu
early_identify_cpu-vendor cpuid c hb hc hd =
    let (c1, e, vendor) = get_cpu_vendor_lem (cpuid 0) hb hc hd (unset_cpuinfo c) in
    let standard = kept-standard (cpuid 1) c1 (leb 1 c1.cpuid_max_stdfunc) in
    let c2 : CpuInfo =
      if leb 1 c1.cpuid_max_stdfunc
      then standard_capabilities (cpuid 1) c1
      else record c1 { x86 = 4 } in
    let c3 = amd_capabilities cpuid c2 in
    (
      transmeta_capabilities cpuid c3,
      rw e,
      kept-transmeta cpuid c3 ∙ (kept-amd cpuid c2 ∙ (standard ∙ vendor)),
    )
