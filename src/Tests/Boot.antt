-- ===== src/Tests/Boot.antt =====
-- The set-up of the host's memory at concrete inputs.
use hv_sebek.Base.{
  ℕ, ◌-◌, ◌*◌, ◌^◌, ◌<◌, ◌≡◌, ◌⊎◌, refl, sym, subst, arith, Words, List, [], ◌∷◌, map,
}
use hv_sebek.Base.Run.{ok}
use hv_sebek.Alloc.{
  NaiveAllocator, map_alloc, allocated_in_map, is_free_contiguous_region, get_alloc_bitmap_idx,
  get_alloc_bitmap_offset, alloc_pages, alloc_host_pages, fill_words, map_free, and_region,
}
use hv_sebek.Alloc.Marks.{mark}
use hv_sebek.Multiboot.{MemoryMap, MultibootInfo, mmap_start, mmap_size, join}
use hv_sebek.E820.{E820Map, setup_memory_region, get_nr_pages, get_max_pfn}
use hv_sebek.E820.Setup.{entry_of, setup_memory_region_lem}
use hv_sebek.E820.MaxPfn.{Ends, RamPage, get_max_pfn_lem}
use hv_sebek.Memmap.{
  PmemLayout, setup_memory, naive_memmap_init, layout_of, init_host_alloc_bitmap, init_host_entry,
  free_alloc_bitmap_region, page_up, page_down,
}
use hv_sebek.Memmap.Heap.{HeapIsFree}
use hv_sebek.Memmap.Pages.{IsBootInfo, setup_memory-HeapIsFree, alloc_host_pages_outside}

-- RAM below 0xa0000 and from 1 MB up to 0x8200000, with a reserved record between them.
abbrev records : List MemoryMap
records =
    record {
      size = 20;
      base_addr_low = 0;
      base_addr_high = 0;
      length_low = 0xa0000;
      length_high = 0;
      type = 1;
    }
    ∷ record {
      size = 20;
      base_addr_low = 0xa0000;
      base_addr_high = 0;
      length_low = 0x60000;
      length_high = 0;
      type = 2;
    }
    ∷ record {
      size = 20;
      base_addr_low = 0x100000;
      base_addr_high = 0;
      length_low = 0x8100000;
      length_high = 0;
      type = 1;
    }
    ∷ []

abbrev boot_info : MultibootInfo
boot_info = record { flags = 2 ^ 6; mmap_length = 72; mmap = records }

abbrev entries : E820Map
entries =
    record { addr = 0; size = 0xa0000; type = 1 }
    ∷ record { addr = 0xa0000; size = 0x60000; type = 2 }
    ∷ record { addr = 0x100000; size = 0x8100000; type = 1 }
    ∷ []

abbrev stale : Words
stale a = 0x1234

setup_memory_region_lem_example : setup_memory_region boot_info ≡ ok (map entry_of records)
setup_memory_region_lem_example = setup_memory_region_lem boot_info refl (omega arith)

entry_of-records : map entry_of records ≡ entries
unfolding mmap_start mmap_size join
entry_of-records = refl

entries-Ends : Ends entries
entries-Ends = (omega arith, (omega arith, (omega arith, tt)))

get_max_pfn_lem_example :
    ((p : ℕ) → RamPage entries p → p < get_max_pfn entries)
    × ((get_max_pfn entries ≡ 0) ⊎ RamPage entries (get_max_pfn entries - 1))
get_max_pfn_lem_example = get_max_pfn_lem entries entries-Ends

-- The host is given 2 MB.
abbrev two_mb : ℕ
two_mb = 2 ^ 21

abbrev laid : PmemLayout
laid = record {
  max_page = 0x8200;
  total_pages = 0x81a0;
  vmm_pmem_start = 2 ^ 27;
  vmm_heap_start = 0x8102000;
  vmm_pmem_end = 0x81fffff;
  e820 = entries;
}

abbrev set_up : PmemLayout × NaiveAllocator
set_up = (
  laid,
  record {
    alloc_bitmap = init_host_alloc_bitmap laid (fill_words (2 ^ 64 - 1) 1024 0 stale) entries;
    max_page = 0x8200;
  },
)

layout_max_page : (layout_of entries two_mb).max_page ≡ 0x8200
unfolding layout_of get_max_pfn
layout_max_page = refl

naive_memmap_init-set_up : naive_memmap_init stale entries (layout_of entries two_mb) ≡ ok set_up
unfolding naive_memmap_init layout_of page_up get_max_pfn get_nr_pages
naive_memmap_init-set_up = refl

setup_memory-set_up : setup_memory stale boot_info two_mb ≡ ok set_up
unfolding setup_memory
setup_memory-set_up =
    rw (setup_memory_region_lem_example, entry_of-records) naive_memmap_init-set_up

boot_info-IsBootInfo : IsBootInfo boot_info two_mb
boot_info-IsBootInfo = record {
  bytes = refl;
  bytes_fit = omega arith;
  ends = subst (λ (es : E820Map). Ends es) (sym entry_of-records) entries-Ends;
  pages_fit =
      subst (λ (es : E820Map). (layout_of es two_mb).max_page < 2 ^ 52) (sym entry_of-records)
        (omega (arith, layout_max_page));
}

setup_memory-HeapIsFree_example :
    HeapIsFree (map entry_of records) (layout_of (map entry_of records) two_mb) set_up
setup_memory-HeapIsFree_example =
    setup_memory-HeapIsFree stale boot_info two_mb set_up boot_info-IsBootInfo setup_memory-set_up

-- A call with an alignment that leads into the heap.
abbrev one_more : NaiveAllocator
one_more = record { alloc_bitmap = map_alloc set_up.1.alloc_bitmap 0x8140 1; max_page = 0x8200 }

one_found : alloc_host_pages 1 0x8140 set_up.1 ≡ ok (0x8140, one_more)
unfolding alloc_host_pages alloc_pages is_free_contiguous_region allocated_in_map
    get_alloc_bitmap_idx get_alloc_bitmap_offset init_host_alloc_bitmap init_host_entry
    free_alloc_bitmap_region page_up page_down map_free and_region fill_words
one_found = refl

alloc_host_pages_outside_example :
    (b c : NaiveAllocator) × (alloc_host_pages 1 1 set_up.1 ≡ ok (32, b))
    × (alloc_host_pages 1 1 b ≡ ok (32, c))
    × (mark set_up.1.alloc_bitmap 32 ≡ 1)
    × (32 * 4096 < set_up.0.vmm_heap_start)
alloc_host_pages_outside_example =
    alloc_host_pages_outside stale boot_info two_mb set_up boot_info-IsBootInfo setup_memory-set_up
      (omega arith)
