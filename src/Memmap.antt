-- ===== src/Memmap.antt =====
-- The memory layout of the host: `free_alloc_bitmap_region`, `init_host_alloc_bitmap` and
-- `naive_memmap_init` of kernel/alloc.c, `struct pmem_layout` of include/pmem_layout.h, and
-- `setup_memory` of kernel/setup.c, which calls them.
pub mod Rounding
pub mod Heap
pub mod Pages
use hv_sebek.Base.{
  ℕ, ◌+◌, ◌-◌, ◌/◌, ◌^◌, Bool, List, [], ◌∷◌, bit_and, ltb, leb, ◌==◌, if◌then◌else◌, Words, add64,
  sub64, shr,
}
use hv_sebek.Base.Run.{Run, ok, fatal, ◌>>=◌}
use hv_sebek.Alloc.{NaiveAllocator, fill_words, map_free}
use hv_sebek.Multiboot.{MultibootInfo}
use hv_sebek.E820.{E820Entry, E820Map, e820_ram, setup_memory_region, get_nr_pages, get_max_pfn}

pub record PmemLayout : Type 0 where
  pub max_page : ℕ
  pub total_pages : ℕ
  pub vmm_pmem_start : ℕ
  pub vmm_heap_start : ℕ
  pub vmm_pmem_end : ℕ
  pub e820 : E820Map

-- `PAGE_MASK`, an `int` that is read as an `unsigned long`.
abbrev pub page_mask : ℕ
page_mask = 2 ^ 64 - 2 ^ 12

unfoldable pub page_up : ℕ → ℕ
page_up p = bit_and (add64 p (2 ^ 12 - 1)) page_mask

unfoldable pub page_down : ℕ → ℕ
page_down p = bit_and p page_mask

unfoldable pub free_alloc_bitmap_region : Words → ℕ → ℕ → Words
free_alloc_bitmap_region tbl _start _end =
    let start = page_up _start in
    let end = page_down _end in
    if leb end start then tbl else map_free tbl (shr start 12) (shr (sub64 end start) 12)

-- One round of the loop of `init_host_alloc_bitmap`.
unfoldable pub init_host_entry : PmemLayout → Words → E820Entry → Words
init_host_entry pml tbl p =
    let start = p.addr in
    let end = add64 p.addr p.size in
    let from = if ltb start pml.vmm_heap_start then pml.vmm_heap_start else start in
    let to = if ltb pml.vmm_pmem_end end then pml.vmm_pmem_end else end in
    if p.type == e820_ram
    then (if ltb end pml.vmm_heap_start
        then tbl
        else (if ltb pml.vmm_pmem_end start then tbl else free_alloc_bitmap_region tbl from to))
    else tbl

unfoldable pub init_host_alloc_bitmap : PmemLayout → Words → E820Map → Words
init_host_alloc_bitmap pml tbl [] = tbl
init_host_alloc_bitmap pml tbl (p ∷ ps) = init_host_alloc_bitmap pml (init_host_entry pml tbl p) ps

abbrev pub host_ab_address : ℕ
host_ab_address = 0x8100000

-- `mem` is what stands in memory at `host_ab_start`, by words, before the `memset`; the size that
-- is set is a number of whole words.
unfoldable pub naive_memmap_init : Words → E820Map → PmemLayout → Run (PmemLayout × NaiveAllocator)
naive_memmap_init mem e820 pml =
    let host_ab_start = page_up host_ab_address in
    let mapsize_rounded = page_up (add64 (pml.max_page / 8) 8) in
    let laid : PmemLayout = record pml { vmm_heap_start = add64 host_ab_start mapsize_rounded } in
    let cleared = fill_words (2 ^ 64 - 1) (mapsize_rounded / 8) 0 mem in
    let nalloc : NaiveAllocator = record {
      alloc_bitmap = init_host_alloc_bitmap laid cleared e820;
      max_page = pml.max_page;
    } in
    if leb laid.vmm_pmem_end laid.vmm_heap_start then fatal else ok (laid, nalloc)

abbrev pub default_vmm_pmem_start : ℕ
default_vmm_pmem_start = 2 ^ 27

-- The layout that `setup_memory` has filled in when it calls `naive_memmap_init`.
unfoldable pub layout_of : E820Map → ℕ → PmemLayout
layout_of e820 vmm_pmem_size = record {
  max_page = get_max_pfn e820;
  total_pages = get_nr_pages e820;
  vmm_pmem_start = default_vmm_pmem_start;
  vmm_heap_start = 0;
  vmm_pmem_end = sub64 (add64 default_vmm_pmem_start vmm_pmem_size) 1;
  e820 = e820;
}

-- `vmm_pmem_size` is the option of that name.
unfoldable pub setup_memory : Words → MultibootInfo → ℕ → Run (PmemLayout × NaiveAllocator)
setup_memory mem mbi vmm_pmem_size =
    setup_memory_region mbi >>= λ e820. naive_memmap_init mem e820 (layout_of e820 vmm_pmem_size)
