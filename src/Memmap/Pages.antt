-- ===== src/Memmap/Pages.antt =====
-- `setup_memory` of kernel/setup.c followed by calls of `alloc_host_pages`.
use hv_sebek.Base.{
  ℕ, ◌+◌, ◌*◌, ◌%◌, ◌^◌, ◌<◌, ◌≡◌, refl, arith, Bool, true, false, map, leb, ◌==◌, if◌then◌else◌,
  Words, bit_and, length, [], ◌∷◌,
}
use hv_sebek.Base.Run.{ok, fatal, ◌>>=◌}
use hv_sebek.Alloc.{NaiveAllocator, alloc_host_pages}
use hv_sebek.Alloc.Marks.{mark}
use hv_sebek.Alloc.Search.{alloc_pages-marks}
use hv_sebek.Alloc.Alias.{alloc_host_pages_alias}
use hv_sebek.E820.{E820Map}
use hv_sebek.E820.MaxPfn.{Ends}
use hv_sebek.E820.Setup.{entry_of, setup_memory_region_lem}
use hv_sebek.Multiboot.{MultibootInfo, mmap_bytes, mbi_memmap}
use hv_sebek.Memmap.{PmemLayout, layout_of, naive_memmap_init, setup_memory}
use hv_sebek.Memmap.Heap.{HeapIsFree, heap_page, naive_memmap_init-HeapIsFree}

-- A boot loader's map that is well formed, with the option for the size of the host's memory.
pub record IsBootInfo (mbi : MultibootInfo) (vmm_pmem_size : ℕ) : Type 0 where
  pub bytes : mmap_bytes mbi.mmap ≡ mbi.mmap_length
  pub bytes_fit : mbi.mmap_length < 2 ^ 64
  pub ends : Ends (map entry_of mbi.mmap)
  pub pages_fit : (layout_of (map entry_of mbi.mmap) vmm_pmem_size).max_page < 2 ^ 52

-- A page that starts below the heap is no heap page.
heap_page_below :
    (laid : PmemLayout) (p : ℕ) (es : E820Map)
    → p * 4096 < laid.vmm_heap_start
    → heap_page laid es p ≡ false
heap_page_below laid p [] h = refl
heap_page_below laid p (e ∷ es) h = ground (arith, heap_page_below laid p es h)

module _ (mem : Words) (mbi : MultibootInfo) (vmm_pmem_size : ℕ) (out : PmemLayout × NaiveAllocator)
    (boot : IsBootInfo mbi vmm_pmem_size)
    (returned : setup_memory mem mbi vmm_pmem_size ≡ ok out) where
  -- `setup_memory` returns only for a map that has been read whole.
  memmap_returned :
      naive_memmap_init mem
        (map entry_of mbi.mmap)
        (layout_of (map entry_of mbi.mmap) vmm_pmem_size)
      ≡ ok out
  unfolding setup_memory
  memmap_returned =
      read (bit_and mbi.flags mbi_memmap == 0) (leb (length mbi.mmap) 128)
        (rw (setup_memory_region_lem mbi boot.bytes boot.bytes_fit) at returned)
    where
      read :
          (b c : Bool)
          → ((if b then fatal else (if c then ok (map entry_of mbi.mmap) else fatal)) >>= λ e820.
              naive_memmap_init mem e820 (layout_of e820 vmm_pmem_size))
            ≡ ok out
          → naive_memmap_init mem
              (map entry_of mbi.mmap)
              (layout_of (map entry_of mbi.mmap) vmm_pmem_size)
            ≡ ok out
      read true c e = cc
      read false true e = e
      read false false e = cc

  -- For a well-formed map of the boot loader, after a `setup_memory` that returns, a page below
  -- `max_page` is free in the host's bitmap exactly when it lies whole in a RAM record of the boot
  -- loader's map and whole in the heap.
  pub setup_memory-HeapIsFree :
      HeapIsFree (map entry_of mbi.mmap) (layout_of (map entry_of mbi.mmap) vmm_pmem_size) out
  unfolding layout_of
  setup_memory-HeapIsFree =
      naive_memmap_init-HeapIsFree mem (map entry_of mbi.mmap)
        (layout_of (map entry_of mbi.mmap) vmm_pmem_size) out boot.ends
        (omega (arith, boot.pages_fit)) (omega arith) memmap_returned

  -- After a `setup_memory` of a well-formed map: of the pages that a first `alloc_host_pages`, for
  -- a positive alignment below 2^63, returns, those that stand in the lower half of their bitmap
  -- word lie in the heap.
  pub alloc_host_pages-heap_page :
      (nr align i k : ℕ) (a' : NaiveAllocator)
      → 0 < align
      → align < 2 ^ 63
      → nr < 2 ^ 64
      → alloc_host_pages nr align out.1 ≡ ok (i, a')
      → k < nr
      → (i + k) % 64 < 32
      → heap_page out.0 (map entry_of mbi.mmap) (i + k) ≡ true
  unfolding alloc_host_pages
  alloc_host_pages-heap_page nr align i k a' pos align_fits nr_fits e inside low =
      let h = setup_memory-HeapIsFree in
      let m = alloc_pages-marks nr align out.1 pos (omega (arith, boot.pages_fit)) nr_fits i a' e in
      ground (arith, h.4 (i + k) (omega arith), m.1 k inside)

  -- After a `setup_memory` of a well-formed map with more than 33 pages, the first call for one
  -- page after the set-up returns page 32, which lies below the heap and is marked as taken; and
  -- so does the second.
  pub alloc_host_pages_outside :
      33 < out.1.max_page
      → (b c : NaiveAllocator) × (alloc_host_pages 1 1 out.1 ≡ ok (32, b))
        × (alloc_host_pages 1 1 b ≡ ok (32, c))
        × (mark out.1.alloc_bitmap 32 ≡ 1)
        × (32 * 4096 < out.0.vmm_heap_start)
  alloc_host_pages_outside many =
      let h = setup_memory-HeapIsFree in
      let taken : (p : ℕ) → p < 33 → mark out.1.alloc_bitmap p ≡ 1 =
        λ p lt. ground (arith, h.4 p, heap_page_below out.0 p (map entry_of mbi.mmap)) in
      let (b, c, first, second, _, _) =
        alloc_host_pages_alias out.1 many (omega (arith, boot.pages_fit))
          (λ p lt. taken p (omega arith)) in
      (b, c, first, second, taken 32 (omega arith), omega arith)
