-- ===== src/Startup/Tables.antt =====
-- Where the pages of `vm_create` in kernel/vm.c stand after the set-up of memory.
use hv_sebek.Base.{ℕ, ◌+◌, ◌*◌, ◌^◌, ◌≤◌, ◌<◌, ◌≡◌, refl, arith, List, length}
use hv_sebek.Base.Run.{ok}
use hv_sebek.Alloc.{NaiveAllocator, map_alloc}
use hv_sebek.Alloc.Alias.{LowTaken, alloc_host_pages_32, low_again}
use hv_sebek.Page.{Host, pg_table_alloc, clear_page}
use hv_sebek.Tracking.{Table, Fid2nameMap}
use hv_sebek.Tracking.Names.{vm_get_fname_from_id-add}
use hv_sebek.Startup.{pages_at, standard_files, VmTables, initialize_tables}

-- The state after the next call for a page.
next : NaiveAllocator → NaiveAllocator
next a = record a { alloc_bitmap = map_alloc a.alloc_bitmap 32 1 }

page_32 :
    (h : Host)
    → 33 < h.nalloc.max_page
    → h.nalloc.max_page + 1 < 2 ^ 64
    → LowTaken h.nalloc
    → pages_at 1 h ≡ ok (32 * 4096, record h { nalloc = next h.nalloc })
unfolding pages_at next
page_32 h many small low =
    rw (alloc_host_pages_32 1 h.nalloc (omega arith) (omega arith) many small low)

files_named :
    (stdin stdout stderr : List ℕ) (fmap : Table Fid2nameMap)
    → 20 ≤ length stdin
    → 20 ≤ length stdout
    → 20 ≤ length stderr
    → (files : Table Fid2nameMap) × (standard_files stdin stdout stderr fmap ≡ ok files)
unfolding standard_files
files_named stdin stdout stderr fmap first second third =
    let (fmap1, added1, _) = vm_get_fname_from_id-add fmap 0 stdin first in
    let (fmap2, added2, _) = vm_get_fname_from_id-add fmap1 1 stdout second in
    let (fmap3, added3, _) = vm_get_fname_from_id-add fmap2 2 stderr third in
    (fmap3, rw (added1, added2, added3))

-- Once the first 32 pages are taken, as they are after the set-up of memory, the tables of the
-- open files, of the waiting threads and of the tracked processes and the nested page table are
-- given the same page.
pub initialize_tables-alias :
    (stdin stdout stderr : List ℕ) (rows : ℕ → Fid2nameMap) (h : Host)
    → 20 ≤ length stdin
    → 20 ≤ length stdout
    → 20 ≤ length stderr
    → 33 < h.nalloc.max_page
    → h.nalloc.max_page + 1 < 2 ^ 64
    → LowTaken h.nalloc
    → (tables : VmTables) × (h1 h2 : Host) × (initialize_tables stdin stdout stderr rows h
        ≡ ok (tables, h1))
      × (pg_table_alloc h1 ≡ ok (32 * 4096, h2))
      × (tables.fmap ≡ 32 * 4096)
      × (tables.syscallmap ≡ 32 * 4096)
      × (tables.ptracked ≡ 32 * 4096)
unfolding initialize_tables pg_table_alloc next
initialize_tables-alias stdin stdout stderr rows h first second third many small low =
    let (files, named) =
      files_named stdin stdout stderr (record { row = rows; used = 0 }) first second third in
    let a1 = next h.nalloc in
    let a2 = next a1 in
    let a3 = next a2 in
    let low1 = low_again 1 h.nalloc (omega arith) (omega arith) many small low in
    let low2 = low_again 1 a1 (omega arith) (omega arith) many small low1 in
    let low3 = low_again 1 a2 (omega arith) (omega arith) many small low2 in
    let h1 : Host = record h { nalloc = a1 } in
    let h2 : Host = record h { nalloc = a2 } in
    let h3 : Host = record h { nalloc = a3 } in
    (
      record { fmap = 32 * 4096; syscallmap = 32 * 4096; ptracked = 32 * 4096; files = files },
      h3,
      record h3 { nalloc = next a3; mem = clear_page h3.mem (32 * 4096) },
      rw (page_32 h many small low, named, page_32 h1 many small low1, page_32 h2 many small low2),
      rw (alloc_host_pages_32 1 a3 (omega arith) (omega arith) many small low3),
      refl,
      refl,
      refl,
    )
