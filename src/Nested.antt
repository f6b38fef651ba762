-- ===== src/Nested.antt =====
-- The nested page tables of the guest in kernel/vm.c: `create_2mb_nested_pagetable`, which
-- `vm_create` calls, and `create_4mb_nested_pagetable`, with the access to entries of 4 MB.
pub mod Hidden
use hv_sebek.Base.{
  ℕ, zero, suc, ◌+◌, ◌-◌, ◌*◌, ◌^◌, Bool, bit_and, leb, ◌&&◌, ◌||◌, if◌then◌else◌, Words, add64,
  sub64, shr, sign_extend32, get_bits, u32,
}
use hv_sebek.Base.Run.{Run, ok, ◌>>=◌}
use hv_sebek.Legacy.{mmap_4mb}
use hv_sebek.Page.{Host, pg_table_alloc, mmap_pml4}

-- `PAGE_DOWN_2MB(p)`, `PAGE_UP_2MB(p)` and the same for 4 MB, by the number of low bits.
abbrev pub page_down_to : ℕ → ℕ → ℕ
page_down_to shift p = bit_and p (2 ^ 64 - 2 ^ shift)

abbrev pub page_up_to : ℕ → ℕ → ℕ
page_up_to shift p = bit_and (add64 p (2 ^ shift - 1)) (2 ^ 64 - 2 ^ shift)

-- `vmm_pagestart` and `vmm_pageend`, from the start and the size of the host's memory.
abbrev pub vmm_pagestart : ℕ → ℕ → ℕ
vmm_pagestart shift vmm_pmem_start = page_down_to shift vmm_pmem_start

abbrev pub vmm_pageend : ℕ → ℕ → ℕ → ℕ
vmm_pageend shift vmm_pmem_start vmm_pmem_size =
    sub64 (page_up_to shift (add64 vmm_pmem_start vmm_pmem_size)) 1

-- The two tests with which the loops pass over a page of `2 ^ shift` bytes; the second adds 4 MB
-- at its end in both of them.
unfoldable pub is_passed_over : ℕ → ℕ → ℕ → ℕ → Bool
is_passed_over shift pagestart pageend guest_paddr =
    leb pagestart guest_paddr && leb guest_paddr pageend
    || leb pagestart (add64 guest_paddr (2 ^ shift)) && leb (add64 guest_paddr (2 ^ 22)) pageend

-- The loop over the pages of 2 MB, from page `i` on with so many rounds left.
unfoldable pub map_2mb_from : ℕ → ℕ → ℕ → ℕ → ℕ → Host → Run Host
unfolding is_passed_over
map_2mb_from zero i cr3 pagestart pageend h = ok h
map_2mb_from (suc rounds) i cr3 pagestart pageend h =
    let guest_paddr = i * 2 ^ 21 in
    let rest = map_2mb_from rounds (i + 1) cr3 pagestart pageend in
    let mapped = (mmap_pml4 h cr3 guest_paddr guest_paddr 1 >>= rest) in
    if is_passed_over 21 pagestart pageend guest_paddr then rest h else mapped

-- A new table, filled and returned.
unfoldable pub fill_table : Host → (ℕ → Host → Run Host) → Run (ℕ × Host)
fill_table h fill = pg_table_alloc h >>= λ (cr3, h'). (fill cr3 h' >>= λ mapped. ok (cr3, mapped))

unfoldable pub create_2mb_nested_pagetable : ℕ → ℕ → Host → Run (ℕ × Host)
create_2mb_nested_pagetable vmm_pmem_start vmm_pmem_size h = fill_table h (λ cr3.
    map_2mb_from 1024 0 cr3 (vmm_pagestart 21 vmm_pmem_start)
      (vmm_pageend 21 vmm_pmem_start vmm_pmem_size))

-- The loop over the pages of 4 MB; `i << 22` is an `int`. Tables are given as 32-bit words.
unfoldable pub map_4mb_from : ℕ → ℕ → ℕ → ℕ → ℕ → Words → Words
unfolding is_passed_over
map_4mb_from zero i cr3 pagestart pageend mem = mem
map_4mb_from (suc rounds) i cr3 pagestart pageend mem =
    let guest_paddr = sign_extend32 (i * 2 ^ 22) in
    map_4mb_from rounds (i + 1) cr3 pagestart pageend (
      if is_passed_over 22 pagestart pageend guest_paddr
      then mem
      else mmap_4mb mem cr3 guest_paddr guest_paddr (2 ^ 32 - 1))

-- `create_4mb_nested_pagetable`, once the table is there.
unfoldable pub fill_4mb_nested_pagetable : ℕ → ℕ → ℕ → Words → Words
fill_4mb_nested_pagetable cr3 vmm_pmem_start vmm_pmem_size mem =
    map_4mb_from 1024 0 cr3 (vmm_pagestart 22 vmm_pmem_start)
      (vmm_pageend 22 vmm_pmem_start vmm_pmem_size) mem

unfoldable pub set_4mb_pagetable_attr : Words → ℕ → ℕ → ℕ → Words
set_4mb_pagetable_attr mem cr3 linearaddr attr = mmap_4mb mem cr3 linearaddr linearaddr attr

-- `entry->flags`, of 13 bits; the index is an `int`.
unfoldable pub get_4mb_pagetable_attr : Words → ℕ → ℕ → ℕ
get_4mb_pagetable_attr mem cr3 linearaddr =
    get_bits 0 13 (mem (add64 cr3 (sign_extend32 (shr linearaddr 22) * 4)))
