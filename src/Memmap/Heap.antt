-- ===== src/Memmap/Heap.antt =====
-- After the set-up, the pages that are free in the bitmap are the RAM pages of the host's heap.
use hv_sebek.Base.{
  ℕ, ◌+◌, ◌-◌, ◌*◌, ◌/◌, ◌%◌, ◌^◌, ◌≤◌, ◌<◌, ◌≡◌, refl, subst, arith, Bool, true, false, [], ◌∷◌,
  ltb, leb, ◌==◌, ◌&&◌, ◌||◌, if◌then◌else◌, Words, add64, sub64, shr,
}
use hv_sebek.Base.Run.{Run, ok, fatal}
use hv_sebek.Base.Bits.{bit-low_mask}
use hv_sebek.Alloc.{NaiveAllocator, fill_words}
use hv_sebek.Alloc.Marks.{mark, mark-map_free, fill_words_lem}
use hv_sebek.E820.{E820Entry, E820Map, e820_ram}
use hv_sebek.E820.MaxPfn.{Ends}
use hv_sebek.Memmap.{
  PmemLayout, page_up, page_down, free_alloc_bitmap_region, init_host_entry, init_host_alloc_bitmap,
  naive_memmap_init, host_ab_address,
}
use hv_sebek.Memmap.Rounding.{page_up_lem, page_down_lem}

-- The whole page `p` lies in a RAM entry and between the bounds of the heap.
abbrev pub heap_page_of : PmemLayout → E820Entry → ℕ → Bool
heap_page_of pml e p =
    e.type == e820_ram
    && leb e.addr (p * 4096)
    && leb ((p + 1) * 4096) (e.addr + e.size)
    && leb pml.vmm_heap_start (p * 4096)
    && leb ((p + 1) * 4096) pml.vmm_pmem_end

abbrev pub heap_page : PmemLayout → E820Map → ℕ → Bool
heap_page pml [] p = false
heap_page pml (e ∷ es) p = heap_page_of pml e p || heap_page pml es p

pub mark-free_alloc_bitmap_region :
    (tbl : Words) (start end p : ℕ)
    → start + 4095 < 2 ^ 64
    → end < 2 ^ 64
    → mark (free_alloc_bitmap_region tbl start end) p
      ≡ (if leb start (p * 4096) && leb ((p + 1) * 4096) end then 0 else mark tbl p)
unfolding free_alloc_bitmap_region
mark-free_alloc_bitmap_region tbl start end p hs he = ground (
  arith,
  page_up_lem start hs,
  page_down_lem end he,
  mark-map_free tbl (shr (page_up start) 12) (shr (sub64 (page_down end) (page_up start)) 12) p,
)

module _ (pml : PmemLayout) (heap_fits : pml.vmm_heap_start + 4096 < 2 ^ 64)
    (end_fits : pml.vmm_pmem_end < 2 ^ 64) where
  mark-init_host_entry :
      (tbl : Words) (e : E820Entry) (p : ℕ)
      → e.addr + e.size + 4096 ≤ 2 ^ 64
      → mark (init_host_entry pml tbl e) p ≡ (if heap_page_of pml e p then 0 else mark tbl p)
  unfolding init_host_entry
  mark-init_host_entry tbl e p ends =
      let end : add64 e.addr e.size ≡ e.addr + e.size = omega arith in
      let from : ℕ = if ltb e.addr pml.vmm_heap_start then pml.vmm_heap_start else e.addr in
      let to : ℕ =
        if ltb pml.vmm_pmem_end (e.addr + e.size) then pml.vmm_pmem_end else e.addr + e.size in
      rw end (ground (arith, mark-free_alloc_bitmap_region tbl from to p))

  mark-init_host_alloc_bitmap :
      (tbl : Words) (es : E820Map) (p : ℕ)
      → Ends es
      → mark (init_host_alloc_bitmap pml tbl es) p ≡ (if heap_page pml es p then 0 else mark tbl p)
  unfolding init_host_alloc_bitmap
  mark-init_host_alloc_bitmap tbl [] p ends = refl
  mark-init_host_alloc_bitmap tbl (e ∷ es) p ends = ground (
    arith,
    mark-init_host_entry tbl e p ends.0,
    mark-init_host_alloc_bitmap (init_host_entry pml tbl e) es p ends.1,
  )

-- In the map that the set-up leaves, a page below `max_page` is free exactly when it is a heap
-- page; the heap starts behind the bitmap, which has a bit for each page below `max_page`.
abbrev pub HeapIsFree : E820Map → PmemLayout → PmemLayout × NaiveAllocator → Type 0
HeapIsFree e820 pml (laid, nalloc) =
    (host_ab_address + pml.max_page / 8 ≤ laid.vmm_heap_start)
    × (laid.vmm_heap_start < laid.vmm_pmem_end)
    × (laid.vmm_pmem_end ≡ pml.vmm_pmem_end)
    × (nalloc.max_page ≡ pml.max_page)
    × ((p : ℕ)
        → p < pml.max_page
        → mark nalloc.alloc_bitmap p ≡ (if heap_page laid e820 p then 0 else 1))

past_guard :
    {A : Type 0} (b : Bool) {a a' : A}
    → ◌≡◌ {A = Run A} (if b then fatal else ok a) (ok a')
    → (b ≡ false) × (a ≡ a')
past_guard true e = cc
past_guard false e = (refl, cc)

-- The bitmap after `memset`: every page that it has a bit for is marked.
mark-cleared :
    (mem : Words) (words p : ℕ) → p / 64 < words → mark (fill_words (2 ^ 64 - 1) words 0 mem) p ≡ 1
mark-cleared mem words p h =
    ground (arith, fill_words_lem (2 ^ 64 - 1) words 0 mem (p / 64), bit-low_mask 64 (p % 64))

-- After a `naive_memmap_init` that returns, for a map in which no entry reaches the last page of
-- the 64-bit range, a page below `max_page` is free in the bitmap exactly when it lies whole in a
-- RAM entry and whole between `vmm_heap_start` and `vmm_pmem_end`. The heap starts no lower than
-- 0x8100000 and the bytes of the bitmap, and below `vmm_pmem_end`, which is unchanged.
pub naive_memmap_init-HeapIsFree :
    (mem : Words) (e820 : E820Map) (pml : PmemLayout) (out : PmemLayout × NaiveAllocator)
    → Ends e820
    → pml.max_page < 2 ^ 64
    → pml.vmm_pmem_end < 2 ^ 64
    → naive_memmap_init mem e820 pml ≡ ok out
    → HeapIsFree e820 pml out
unfolding naive_memmap_init
naive_memmap_init-HeapIsFree mem e820 pml out ends max_fits end_fits e =
    let bytes : ℕ = page_up (add64 (pml.max_page / 8) 8) in
    let laid : PmemLayout = record pml { vmm_heap_start = add64 (page_up host_ab_address) bytes } in
    let start : page_up host_ab_address ≡ host_ab_address =
      omega (arith, page_up_lem host_ab_address (omega arith)) in
    let size : bytes ≡ (pml.max_page / 8 + 8 + 4095) / 4096 * 4096 =
      omega (arith, page_up_lem (add64 (pml.max_page / 8) 8) (omega arith)) in
    let heap : laid.vmm_heap_start ≡ host_ab_address + bytes = omega arith in
    let guarded = past_guard (leb laid.vmm_pmem_end laid.vmm_heap_start) e in
    subst (HeapIsFree e820 pml) guarded.1 (
      omega arith,
      ground (arith, guarded.0),
      refl,
      refl,
      λ p h. ground (
        arith,
        mark-init_host_alloc_bitmap laid (omega arith) end_fits
            (fill_words (2 ^ 64 - 1) (bytes / 8) 0 mem) e820 p ends,
        mark-cleared mem (bytes / 8) p (omega arith),
      ),
    )
