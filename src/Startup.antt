-- ===== src/Startup.antt =====
-- How the guest is set up: the tables of `vm_create` in kernel/vm.c, and the control block that
-- kernel/svm.c fills for an AMD processor. Instructions of the processor are arguments.
pub mod Tables
pub mod Block
pub mod Amd
pub mod Overlap
pub mod Start
use hv_sebek.Base.{
  ℕ, zero, suc, ◌+◌, ◌-◌, ◌*◌, ◌^◌, Bool, List, [], ◌∷◌, ◌++◌, bit_and, bit_or, ltb, leb, ◌==◌,
  ◌&&◌, if◌then◌else◌, Words, shl64, shr, u32,
}
use hv_sebek.Base.Run.{Run, ok, fatal, ◌>>=◌}
use hv_sebek.Alloc.{alloc_host_pages}
use hv_sebek.Page.{Host, page_size}
use hv_sebek.Nested.{create_2mb_nested_pagetable}
use hv_sebek.Tracking.{Table, Fid2nameMap, vm_add_fileid2name_map}

-- `memset` of `size` bytes to 0.
unfoldable pub clear_bytes : Words → ℕ → ℕ → Words
clear_bytes mem paddr size a = if leb paddr a && ltb a (paddr + size) then 0 else mem a

-- `alloc_host_pages(nr_pages, 1)`, as an address.
unfoldable pub pages_at : ℕ → Host → Run (ℕ × Host)
pages_at nr_pages h = alloc_host_pages nr_pages 1 h.nalloc >>= λ (pfn, nalloc).
    ok (shl64 pfn 12, record h { nalloc = nalloc })

-- The same with the pages cleared, for `size` bytes.
unfoldable pub cleared_at : ℕ → ℕ → Host → Run (ℕ × Host)
unfolding clear_bytes pages_at
cleared_at nr_pages size h =
    pages_at nr_pages h >>= λ (p, h'). ok (p, record h' { mem = clear_bytes h'.mem p size })

unfoldable pub create_intercept_table : ℕ → Host → Run (ℕ × Host)
unfolding cleared_at
create_intercept_table size h = cleared_at (shr size 12) size h

-- The three names, each with what stands behind it in memory: 20 bytes are copied of it.
unfoldable pub standard_files :
    List ℕ → List ℕ → List ℕ → Table Fid2nameMap → Run (Table Fid2nameMap)
standard_files stdin stdout stderr fmap = vm_add_fileid2name_map fmap 0 stdin >>= λ fmap1.
    vm_add_fileid2name_map fmap1 1 stdout >>= λ fmap2. vm_add_fileid2name_map fmap2 2 stderr

-- Where the tables of `struct vm_info` stand, and the open files.
pub record VmTables : Type 0 where
  pub fmap : ℕ
  pub syscallmap : ℕ
  pub ptracked : ℕ
  pub files : Table Fid2nameMap

-- `initialize_fid2name_map`, `initialize_syscallmap` and `initialize_ptracked_list`, on the rows
-- that memory holds.
unfoldable pub initialize_tables :
    List ℕ → List ℕ → List ℕ → (ℕ → Fid2nameMap) → Host → Run (VmTables × Host)
unfolding pages_at
initialize_tables stdin stdout stderr rows h = pages_at 1 h >>= λ (fmap, h1).
    (standard_files stdin stdout stderr (record { row = rows; used = 0 }) >>= λ files.
    (pages_at 1 h1 >>= λ (syscallmap, h2).
    (pages_at 1 h2 >>= λ (ptracked, h3).
    ok (record { fmap = fmap; syscallmap = syscallmap; ptracked = ptracked; files = files }, h3))))

-- `vm_create`: the tables, then the nested page tables, by their address.
unfoldable pub vm_create :
    List ℕ → List ℕ → List ℕ → (ℕ → Fid2nameMap) → ℕ → ℕ → Host → Run (VmTables × ℕ × Host)
vm_create stdin stdout stderr rows vmm_pmem_start vmm_pmem_size h =
    initialize_tables stdin stdout stderr rows h >>= λ (tables, h1).
    (create_2mb_nested_pagetable vmm_pmem_start vmm_pmem_size h1 >>= λ (n_cr3, h2).
    ok (tables, n_cr3, h2))
