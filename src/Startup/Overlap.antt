-- ===== src/Startup/Overlap.antt =====
-- `init_amd` of kernel/svm.c, once the first 32 pages of the allocator's map are taken.
use hv_sebek.Base.{
  ℕ, ◌+◌, ◌*◌, ◌%◌, ◌^◌, ◌<◌, ◌≡◌, refl, arith, true, false, Words, update, bit_and, bit_or, u32,
  ◌==◌, shr, leb, ltb, ◌&&◌,
}
use hv_sebek.Base.Bits.{bit_and_mask}
use hv_sebek.Base.Run.{ok, fatal}
use hv_sebek.Alloc.{map_alloc}
use hv_sebek.Alloc.Alias.{LowTaken, alloc_host_pages_32, low_again}
use hv_sebek.Page.{Host, page_size}
use hv_sebek.Processor.{CpuidRegs, CpuInfo, display_cacheinfo}
use hv_sebek.Consistency.{
  vmcb_check_consistency, consistency_checks, first_failure, stop_on, check_efer_svme,
  check_cr0cd_cr0nw, check_cr0_32_63, check_cr4_11_63, check_dr6_32_63, check_dr7_32_63,
  check_efer_15_63, check_eferlme_cr0pg_cr4pae, check_eferlme_cr0pg_cr0pe,
  check_eferlme_cr0pg_cr4pae_csl_csd, check_vmrun_intercept, int_sub_bit, sub_bit,
}
use hv_sebek.Startup.{pages_at, clear_bytes, cleared_at, create_intercept_table}
use hv_sebek.Startup.Block.{
  SvmBlock, cleared_block, efer_svme, checked, intercept_table, set_control_params, start_segment,
  set_vm_to_mbr_start_state, alloc_host_save_area, alloc_vmcb,
}
use hv_sebek.Startup.Amd.{
  AmdGuest, set_bit, clear_bit, test_bit, x86_feature_svm, msr_efer, msr_k8_vm_hsave_pa, wrmsr,
  turn_on_svm, enable_svm, amd_features, init_amd,
}

-- A host whose next pages are those from page 32 on.
record Takes32 (h : Host) : Type 0 where
  many : 35 < h.nalloc.max_page
  small : h.nalloc.max_page + 1 < 2 ^ 64
  low : LowTaken h.nalloc

module _ (nr size : ℕ) (some_pages : 0 < nr) (few : nr < 4) where
  cleared_at_32 :
      (h : Host)
      → Takes32 h
      → (h' : Host) × (cleared_at nr size h ≡ ok (32 * 4096, h')) × Takes32 h'
  unfolding cleared_at pages_at
  cleared_at_32 h t =
      let taken =
        alloc_host_pages_32 nr h.nalloc some_pages (omega arith) (omega (arith, t.many)) t.small
          t.low in
      (
        record {
          mem = clear_bytes h.mem (32 * 4096) size;
          nalloc = record h.nalloc { alloc_bitmap = map_alloc h.nalloc.alloc_bitmap 32 nr };
        },
        rw taken,
        record {
          many = t.many;
          small = t.small;
          low =
              low_again nr h.nalloc some_pages (omega arith) (omega (arith, t.many)) t.small t.low;
        },
      )

save_area_32 :
    (h : Host)
    → Takes32 h
    → (h' : Host) × (alloc_host_save_area h ≡ ok (32 * 4096, h')) × Takes32 h'
unfolding alloc_host_save_area cleared_at pages_at
save_area_32 h t =
    let taken =
      alloc_host_pages_32 1 h.nalloc (omega arith) (omega arith) (omega (arith, t.many)) t.small
        t.low in
    let (h', cleared, t') = cleared_at_32 1 page_size (omega arith) (omega arith) h t in
    (h', rw taken (rw taken at cleared), t')

-- A table that is given the page of the block.
table_32 :
    (nr size : ℕ)
    → 0 < nr
    → nr < 4
    → shr size 12 ≡ nr
    → 0 < size
    → (b : SvmBlock) (h : Host) → Takes32 h
    → (h' : Host) × (intercept_table (32 * 4096) size b h ≡ ok (32 * 4096, cleared_block, h'))
      × Takes32 h'
unfolding intercept_table create_intercept_table
table_32 nr size some_pages few pages positive b h t =
    let (h', cleared, t') = cleared_at_32 nr size some_pages few h t in
    let hit : (leb (32 * 4096) (32 * 4096) && ltb (32 * 4096) (32 * 4096 + size)) ≡ true =
      ground arith in
    (h', rw (pages, cleared, hit), t')

kept-capability :
    (cpuid : ℕ → CpuidRegs) (c : CpuInfo)
    → (display_cacheinfo cpuid c).x86_capability ≡ c.x86_capability
unfolding display_cacheinfo
kept-capability cpuid c = ground arith

module _ (cpuid : ℕ → CpuidRegs) (msrs : Words) (c : CpuInfo)
    (svm : test_bit x86_feature_svm c.x86_capability ≡ true)
    (nested : (cpuid 0x8000000a).edx % 2 ≡ 1) where
  svm_found :
      (x : ℕ)
      → test_bit x86_feature_svm
          (update (display_cacheinfo cpuid (amd_features cpuid c)).x86_capability 5 x)
        ≡ true
  unfolding test_bit amd_features set_bit clear_bit
  svm_found x = rw (kept-capability cpuid (amd_features cpuid c)) (ground (arith, svm))

  nested_found : (bit_and (cpuid 0x8000000a).edx (2 ^ 0) == 0) ≡ false
  nested_found = ground (arith, bit_and_mask 1 (cpuid 0x8000000a).edx)

  enable_svm_32 :
      (h : Host)
      → Takes32 h
      → (c' : CpuInfo) × (msrs' : Words) × (h' : Host) × (enable_svm cpuid msrs
            (display_cacheinfo cpuid (amd_features cpuid c))
            h
          ≡ ok (c', msrs', h'))
        × (msrs' msr_k8_vm_hsave_pa ≡ 32 * 4096)
        × Takes32 h'
  unfolding enable_svm turn_on_svm wrmsr
  enable_svm_32 h t =
      let (h', area, t') = save_area_32 h t in
      let ecx = (cpuid 0x80000001).ecx in
      let c1 = display_cacheinfo cpuid (amd_features cpuid c) in
      let eax = bit_or (u32 (msrs msr_efer)) efer_svme in
      let on = wrmsr msr_efer eax (shr (msrs msr_efer) 32) msrs in
      (
        record c1 { x86_capability = update c1.x86_capability 5 ecx },
        wrmsr msr_k8_vm_hsave_pa (32 * 4096) 0 on,
        h',
        rw (svm_found ecx, nested_found, area),
        refl,
        t',
      )

  -- Where the processor has the two features, the map has more than 35 pages and the first 32 are
  -- taken, as they are after the set-up of memory, the save area of the host, the control block and
  -- its table for registers are all given page 32, and the block is cleared with its tables: it is
  -- left without its table for ports, nested paging, page table, guest identifier and the
  -- interceptions of general2, and the checks of a control block refuse it.
  pub init_amd-overlap :
      (n_cr3 : ℕ) (h : Host)
      → 35 < h.nalloc.max_page
      → h.nalloc.max_page + 1 < 2 ^ 64
      → LowTaken h.nalloc
      → (g : AmdGuest) × (init_amd cpuid n_cr3 msrs c h ≡ ok g)
        × (g.msrs msr_k8_vm_hsave_pa ≡ 32 * 4096)
        × (g.vmcb ≡ 32 * 4096)
        × (g.block.msrpm_base_pa ≡ 32 * 4096)
        × (g.block.iopm_base_pa ≡ 0)
        × (g.block.np_enable ≡ 0)
        × (g.block.n_cr3 ≡ 0)
        × (g.block.guest_asid ≡ 0)
        × (g.block.general2_intercepts ≡ 0)
        × (vmcb_check_consistency (checked g.block) ≡ fatal)
  unfolding init_amd alloc_vmcb set_control_params set_vm_to_mbr_start_state start_segment
      vmcb_check_consistency stop_on first_failure consistency_checks check_efer_svme
      check_cr0cd_cr0nw check_cr0_32_63 check_cr4_11_63 check_dr6_32_63 check_dr7_32_63
      check_efer_15_63 check_eferlme_cr0pg_cr4pae check_eferlme_cr0pg_cr0pe
      check_eferlme_cr0pg_cr4pae_csl_csd check_vmrun_intercept int_sub_bit sub_bit
  init_amd-overlap n_cr3 h many small low =
      let (c', msrs', h1, enabled, area, t1) =
        enable_svm_32 h (record { many = many; small = small; low = low }) in
      let (h2, block, t2) = cleared_at_32 1 page_size (omega arith) (omega arith) h1 t1 in
      let b : SvmBlock = record cleared_block {
        n_cr3 = n_cr3;
        np_enable = 1;
        guest_asid = 1;
        general2_intercepts = 3;
      } in
      let (h3, iopm, t3) =
        table_32 3 (12 * 2 ^ 10) (omega arith) (omega arith) refl (omega arith) b h2 t2 in
      let b' : SvmBlock = record cleared_block { iopm_base_pa = 32 * 4096 } in
      let (h4, msrpm, t4) =
        table_32 2 (8 * 2 ^ 10) (omega arith) (omega arith) refl (omega arith) b' h3 t3 in
      (
        record {
          vmcb = 32 * 4096;
          block = set_vm_to_mbr_start_state (record cleared_block { msrpm_base_pa = 32 * 4096 });
          cpuinfo = c';
          msrs = msrs';
          host = h4;
        },
        rw (enabled, block, iopm, msrpm) refl,
        area,
        refl,
        refl,
        refl,
        refl,
        refl,
        refl,
        refl,
        refl,
      )
