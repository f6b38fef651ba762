-- ===== src/Tests/Startup.antt =====
-- The set-up of the guest and of the processor at concrete inputs.
use hv_sebek.Base.{ℕ, ◌*◌, ◌/◌, ◌%◌, ◌-◌, ◌^◌, ◌≡◌, refl, inr, arith, Words, update, List, [], ◌∷◌}
use hv_sebek.Base.Run.{ok, fatal}
use hv_sebek.Base.Bits.{bit-low_mask}
use hv_sebek.Alloc.{map_alloc}
use hv_sebek.Alloc.Alias.{LowTaken, alloc_host_pages_32, low_again}
use hv_sebek.Page.{Host, pg_table_alloc}
use hv_sebek.Tracking.{Fid2nameMap}
use hv_sebek.Processor.{CpuidRegs, CpuInfo, early_identify_cpu, x86_vendor_amd}
use hv_sebek.Processor.Vendor.{early_identify_cpu-vendor}
use hv_sebek.Consistency.{vmcb_check_consistency}
use hv_sebek.Startup.{
  VmTables, pages_at, clear_bytes, cleared_at, create_intercept_table, initialize_tables,
}
use hv_sebek.Startup.Tables.{initialize_tables-alias}
use hv_sebek.Startup.Block.{
  SegSelector, SvmBlock, cleared_block, checked, set_control_params, set_vm_to_mbr_start_state,
}
use hv_sebek.Startup.Amd.{AmdGuest, msr_k8_vm_hsave_pa, init_amd, test_bit}
use hv_sebek.Startup.Overlap.{init_amd-overlap}
use hv_sebek.Startup.Start.{IsReal, set_control_params-start}

abbrev pub no_words : Words
no_words i = 0

-- Pages 0 to 31 are taken.
abbrev pub low_host : Host
low_host = record {
  mem = no_words;
  nalloc = record { alloc_bitmap = update no_words 0 (2 ^ 32 - 1); max_page = 128 };
}

pub low_host-LowTaken : LowTaken low_host.nalloc
low_host-LowTaken p h =
    let word : p / 64 ≡ 0 = omega arith in
    let place : p % 64 ≡ p = omega arith in rw (word, place) (ground (arith, bit-low_mask 32 p))

abbrev file_name : List ℕ
file_name =
    0x73 ∷ 0x74 ∷ 0x64 ∷ 0 ∷ 0 ∷ 0 ∷ 0 ∷ 0 ∷ 0 ∷ 0 ∷ 0 ∷ 0 ∷ 0 ∷ 0 ∷ 0 ∷ 0 ∷ 0 ∷ 0 ∷ 0 ∷ 0 ∷ []

abbrev no_file : Fid2nameMap
no_file = record { fid = 0; fname = [] }

initialize_tables-alias_example :
    (tables : VmTables) × (h1 h2 : Host) × (initialize_tables file_name file_name file_name
        (λ i. no_file)
        low_host
      ≡ ok (tables, h1))
    × (pg_table_alloc h1 ≡ ok (32 * 4096, h2))
    × (tables.fmap ≡ 32 * 4096)
    × (tables.syscallmap ≡ 32 * 4096)
    × (tables.ptracked ≡ 32 * 4096)
initialize_tables-alias_example =
    initialize_tables-alias file_name file_name file_name (λ i. no_file) low_host (omega arith)
      (omega arith) (omega arith) (omega arith) (omega arith) low_host-LowTaken

-- An AMD processor with nested paging, whose functions answer alike otherwise.
abbrev amd_cpuid : ℕ → CpuidRegs
amd_cpuid n = record { eax = 1; ebx = 0x68747541; ecx = 0x444d4163; edx = 0x69746e65 }

abbrev pub some_cpu : CpuInfo
some_cpu = record {
  x86 = 0;
  x86_vendor = 7;
  x86_model = 0;
  x86_mask = 0;
  cpuid_max_stdfunc = 0;
  cpuid_max_exfunc = 0;
  x86_capability = update no_words 6 4;
  x86_vendor_id = [];
  x86_model_id = [];
  x86_cache_size = 0;
  x86_cache_alignment = 0;
  x86_clflush_size = 0;
  x86_tlbsize = 0;
  x86_virt_bits = 0;
  x86_phys_bits = 0;
  x86_power = 0;
  x86_max_cores = 0;
}

early_identify_cpu-vendor_example :
    (c' : CpuInfo) × (early_identify_cpu amd_cpuid some_cpu ≡ ok c')
    × (c'.x86_vendor ≡ x86_vendor_amd)
early_identify_cpu-vendor_example =
    early_identify_cpu-vendor amd_cpuid some_cpu (omega arith) (omega arith) (omega arith)

init_amd-overlap_example :
    (g : AmdGuest) × (init_amd amd_cpuid 0x1000 no_words some_cpu low_host ≡ ok g)
    × (g.msrs msr_k8_vm_hsave_pa ≡ 32 * 4096)
    × (g.vmcb ≡ 32 * 4096)
    × (g.block.msrpm_base_pa ≡ 32 * 4096)
    × (g.block.iopm_base_pa ≡ 0)
    × (g.block.np_enable ≡ 0)
    × (g.block.n_cr3 ≡ 0)
    × (g.block.guest_asid ≡ 0)
    × (g.block.general2_intercepts ≡ 0)
    × (vmcb_check_consistency (checked g.block) ≡ fatal)
unfolding test_bit
init_amd-overlap_example =
    init_amd-overlap amd_cpuid no_words some_cpu refl refl 0x1000 low_host (omega arith)
      (omega arith) low_host-LowTaken

abbrev first_done : Host
first_done = record {
  mem = clear_bytes no_words (32 * 4096) (12 * 2 ^ 10);
  nalloc = record low_host.nalloc { alloc_bitmap = map_alloc low_host.nalloc.alloc_bitmap 32 3 };
}

abbrev second_done : Host
second_done = record {
  mem = clear_bytes first_done.mem (32 * 4096) (8 * 2 ^ 10);
  nalloc = record low_host.nalloc { alloc_bitmap = map_alloc first_done.nalloc.alloc_bitmap 32 2 };
}

first_table : create_intercept_table (12 * 2 ^ 10) low_host ≡ ok (32 * 4096, first_done)
unfolding create_intercept_table cleared_at pages_at
first_table = rw (
    alloc_host_pages_32 3 low_host.nalloc (omega arith) (omega arith) (omega arith) (omega arith)
      low_host-LowTaken)

second_table : create_intercept_table (8 * 2 ^ 10) first_done ≡ ok (32 * 4096, second_done)
unfolding create_intercept_table cleared_at pages_at
second_table =
    let low =
      low_again 3 low_host.nalloc (omega arith) (omega arith) (omega arith) (omega arith)
        low_host-LowTaken in
    rw (
      alloc_host_pages_32 2 first_done.nalloc (omega arith) (omega arith) (omega arith)
        (omega arith) low)

-- The control block stands in page 64.
set_control_params-start_example :
    (b : SvmBlock) × (set_control_params
        (64 * 4096)
        (record cleared_block { n_cr3 = 0x1000 })
        low_host
      ≡ ok (b, second_done))
    × (b.np_enable ≡ 1)
    × (b.n_cr3 ≡ 0x1000)
    × (b.guest_asid ≡ 1)
    × (b.iopm_base_pa ≡ 32 * 4096)
    × (b.msrpm_base_pa ≡ 32 * 4096)
    × (vmcb_check_consistency (checked (set_vm_to_mbr_start_state b)) ≡ ok tt)
    × IsReal (SvmBlock.cs (set_vm_to_mbr_start_state b))
    × IsReal (SvmBlock.ss (set_vm_to_mbr_start_state b))
    × IsReal (SvmBlock.es (set_vm_to_mbr_start_state b))
    × IsReal (SvmBlock.fs (set_vm_to_mbr_start_state b))
    × IsReal (SvmBlock.gs (set_vm_to_mbr_start_state b))
    × (4 * SegSelector.base (SvmBlock.ds (set_vm_to_mbr_start_state b))
        ≡ 16 * SegSelector.sel (SvmBlock.ds (set_vm_to_mbr_start_state b)))
set_control_params-start_example =
    set_control_params-start (64 * 4096) 0x1000 (32 * 4096) (32 * 4096) low_host first_done
      second_done first_table second_table (inr (omega arith)) (inr (omega arith))
