-- ===== src/Page.antt =====
-- The 2-MB page tables of the host in kernel/page.c and include/page.h: `pg_table_alloc`,
-- `__mmap_2mb`, `mmap_pml4` and `linear2physical_legacy2mb`. The functions that print tables are
-- left out.
pub mod Entry
pub mod Tables
pub mod Walk
use hv_sebek.Base.{
  ℕ, zero, suc, ◌+◌, ◌-◌, ◌*◌, ◌%◌, ◌^◌, Bool, bit_and, bit_or, ltb, leb, ◌==◌, ◌&&◌, not,
  if◌then◌else◌, Words, update, add64, shl64, shr, get_bits, set_bits, sign_extend32,
}
use hv_sebek.Base.Run.{Run, ok, fatal, ◌>>=◌}
use hv_sebek.Alloc.{NaiveAllocator, alloc_host_pages}

-- Physical memory as 64-bit words by byte address, beside the allocator of its pages.
pub record Host : Type 0 where
  pub mem : Words
  pub nalloc : NaiveAllocator

abbrev pub page_size : ℕ
page_size = 2 ^ 12

-- `memset` of a page to 0.
unfoldable pub clear_page : Words → ℕ → Words
clear_page mem paddr a = if leb paddr a && ltb a (paddr + page_size) then 0 else mem a

unfoldable pub pg_table_alloc : Host → Run (ℕ × Host)
unfolding clear_page
pg_table_alloc h = alloc_host_pages 1 1 h.nalloc >>= λ (pfn, nalloc).
    ok (shl64 pfn 12, record { mem = clear_page h.mem (shl64 pfn 12); nalloc = nalloc })

-- `enum pg_table_level`
abbrev pub pgt_level_pml4 : ℕ
pgt_level_pml4 = 4

abbrev pub pgt_level_pdp : ℕ
pgt_level_pdp = 3

abbrev pub pgt_level_pd : ℕ
pgt_level_pd = 2

abbrev pub pgt_level_pt : ℕ
pgt_level_pt = 1

abbrev index_at : ℕ → ℕ → ℕ
index_at vaddr shift = bit_and (shr vaddr shift) (2 ^ 9 - 1)

unfoldable pub get_index_pae2mb : ℕ → ℕ → Run ℕ
get_index_pae2mb vaddr level =
    if level == pgt_level_pml4
    then ok (index_at vaddr 39)
    else (if level == pgt_level_pdp
        then ok (index_at vaddr 30)
        else (if level == pgt_level_pd then ok (index_at vaddr 21) else fatal))

-- The address of the entry, of 8 bytes.
unfoldable pub get_entry : ℕ → ℕ → ℕ → Run ℕ
get_entry pg_table_base vaddr level =
    get_index_pae2mb vaddr level >>= λ index. ok (add64 pg_table_base (index * 8))

-- The flag bits of an entry.
abbrev pub pttef_present : ℕ
pttef_present = 2 ^ 0

abbrev pub pttef_rw : ℕ
pttef_rw = 2 ^ 1

abbrev pub pttef_us : ℕ
pttef_us = 2 ^ 2

abbrev pub pttef_page_size : ℕ
pttef_page_size = 2 ^ 7

-- `union pgt_entry_2mb`: `term` has flags of 21 bits and a base of 31, `non_term` flags of 12 bits
-- and a base of 40.
unfoldable pub entry2mb_is_present : ℕ → Bool
entry2mb_is_present w = not (bit_and (get_bits 0 21 w) pttef_present == 0)

abbrev pub term_flags : ℕ → ℕ
term_flags is_user =
    let flags : ℕ = bit_or (bit_or pttef_present pttef_rw) pttef_page_size in
    if is_user == 0 then flags else bit_or flags pttef_us

-- The entry of a page directory, over the word that stood there.
unfoldable pub term_entry : ℕ → ℕ → ℕ → ℕ
term_entry w paddr is_user = set_bits 0 21 (set_bits 21 31 w (shr paddr 21)) (term_flags is_user)

-- The entry of an upper table that points to the table at `paddr`.
unfoldable pub non_term_entry : ℕ → ℕ → ℕ
non_term_entry w paddr =
    set_bits 0 12 (set_bits 12 40 w (shr paddr 12))
      (bit_or (bit_or pttef_present pttef_rw) pttef_us)

-- `entry->non_term.base << PAGE_SHIFT`: the shift is done in the 40 bits of the field.
unfoldable pub next_table : ℕ → ℕ
next_table w = get_bits 12 40 w * 2 ^ 12 % 2 ^ 40

-- At an upper level: the entry is filled with a new table, where none is present.
unfoldable pub ensure_table : Host → ℕ → Run Host
unfolding entry2mb_is_present non_term_entry pg_table_alloc
ensure_table h entry =
    if entry2mb_is_present (h.mem entry)
    then ok h
    else (pg_table_alloc h >>= λ (paddr, h').
        ok (record h' { mem = update h'.mem entry (non_term_entry (h'.mem entry) paddr) }))

-- `__mmap_2mb`; the level falls by one for each table on the way.
unfoldable pub mmap_2mb : ℕ → Host → ℕ → ℕ → ℕ → ℕ → Run Host
mmap_2mb zero h pg_table_base vaddr paddr is_user = fatal
mmap_2mb (suc level) h pg_table_base vaddr paddr is_user =
    get_entry pg_table_base vaddr (suc level) >>= λ entry.
    (if suc level == pgt_level_pd
      then ok (record h { mem = update h.mem entry (term_entry (h.mem entry) paddr is_user) })
      else (ensure_table h entry >>= λ h'.
          mmap_2mb level h' (next_table (h'.mem entry)) vaddr paddr is_user))

unfoldable pub mmap_pml4 : Host → ℕ → ℕ → ℕ → ℕ → Run Host
unfolding mmap_2mb
mmap_pml4 h pml4_table_base vaddr paddr is_user =
    mmap_2mb pgt_level_pml4 h pml4_table_base vaddr paddr is_user

-- At the page directory: `term.base` is promoted to `int`, and the shift is done in 32 bits.
unfoldable pub page_2mb : ℕ → ℕ → Run ℕ
page_2mb w vaddr =
    if bit_and (get_bits 0 21 w) pttef_page_size == 0
    then fatal
    else ok (add64 (sign_extend32 (get_bits 21 31 w * 2 ^ 21)) (bit_and vaddr (2 ^ 21 - 1)))

unfoldable pub linear2physical_2mb : ℕ → Words → ℕ → ℕ → Run ℕ
unfolding entry2mb_is_present
linear2physical_2mb zero mem pg_table_base vaddr = fatal
linear2physical_2mb (suc level) mem pg_table_base vaddr =
    get_entry pg_table_base vaddr (suc level) >>= λ entry.
    (if entry2mb_is_present (mem entry)
      then (if suc level == pgt_level_pd
          then page_2mb (mem entry) vaddr
          else linear2physical_2mb level mem (next_table (mem entry)) vaddr)
      else fatal)

-- With no table, nested paging is off and addresses are the machine's.
unfoldable pub linear2physical_legacy2mb : Words → ℕ → ℕ → Run ℕ
unfolding linear2physical_2mb
linear2physical_legacy2mb mem pml4_table_base vaddr =
    if pml4_table_base == 0
    then ok vaddr
    else linear2physical_2mb pgt_level_pml4 mem pml4_table_base vaddr
