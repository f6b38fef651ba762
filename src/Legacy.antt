-- ===== src/Legacy.antt =====
-- The guest's 32-bit page tables in kernel/page.c and include/page.h: `mmap_4mb`, the walks
-- `linear2physical_legacy4kb` and `linear2physical_legacy4mb`, and `linear_2_physical`.
pub mod Entry
pub mod Paging
use hv_sebek.Base.{
  ℕ, zero, suc, ◌+◌, ◌-◌, ◌*◌, ◌^◌, Bool, bit_and, bit_or, leb, ltb, ◌==◌, not, if◌then◌else◌,
  Words, update, add64, shr, u32, get_bits, set_bits, sign_extend32,
}
use hv_sebek.Base.Run.{Run, ok, fatal, ◌>>=◌}
use hv_sebek.Page.{pttef_present, pttef_rw, pttef_us, pttef_page_size, pgt_level_pd, pgt_level_pt}

-- -1 as an `unsigned long`, for a page that is not present.
abbrev pub not_present : ℕ
not_present = 2 ^ 64 - 1

unfoldable pub get_index_4kb : ℕ → ℕ → Run ℕ
get_index_4kb vaddr level =
    if level == pgt_level_pd
    then ok (bit_and (shr vaddr 22) (2 ^ 10 - 1))
    else (if level == pgt_level_pt then ok (bit_and (shr vaddr 12) (2 ^ 10 - 1)) else fatal)

-- The address of an entry of 4 bytes.
unfoldable pub get_entry4kb : ℕ → ℕ → ℕ → Run ℕ
get_entry4kb pg_table_base vaddr level =
    get_index_4kb vaddr level >>= λ index. ok (add64 pg_table_base (index * 4))

-- `entry->pte.flags & PTTEF_PRESENT` and `entry->flags & PTTEF_PRESENT`: fields of 12 and 13 bits.
unfoldable pub entry4kb_is_present : ℕ → Bool
entry4kb_is_present w = not (bit_and (get_bits 0 12 w) pttef_present == 0)

unfoldable pub entry4mb_is_present : ℕ → Bool
entry4mb_is_present w = not (bit_and (get_bits 0 13 w) pttef_present == 0)

-- `e->pte.base << PAGE_SHIFT_4KB`: 20 bits, promoted to `int`.
unfoldable pub base4kb : ℕ → ℕ
base4kb w = sign_extend32 (get_bits 12 20 w * 2 ^ 12)

-- `___linear2physical_legacy4kb` at the entry `w`, with `below` for the walk one level down.
unfoldable pub through_entry4kb : ℕ → ℕ → ℕ → (ℕ → Run ℕ) → Run ℕ
through_entry4kb w linearaddr level below =
    if level == pgt_level_pt
    then ok (add64 (base4kb w) (bit_and linearaddr (2 ^ 12 - 1)))
    else below (base4kb w)

-- `__linear2physical_legacy4kb`; memory is given as 32-bit words by byte address.
unfoldable pub linear2physical_4kb : ℕ → Words → ℕ → ℕ → Run ℕ
linear2physical_4kb zero mem table linearaddr = fatal
linear2physical_4kb (suc level) mem table linearaddr =
    get_entry4kb table linearaddr (suc level) >>= λ e.
    (if entry4kb_is_present (mem e)
      then through_entry4kb (mem e) linearaddr (suc level)
          (λ base. linear2physical_4kb level mem base linearaddr)
      else ok not_present)

unfoldable pub linear2physical_legacy4kb : Words → ℕ → ℕ → Run ℕ
linear2physical_legacy4kb mem table linearaddr =
    linear2physical_4kb pgt_level_pd mem table linearaddr

unfoldable pub get_pt_entry4mb : ℕ → ℕ → ℕ
get_pt_entry4mb table linearaddr = add64 table (shr linearaddr 22 * 4)

-- `e->baselow << 22`: 10 bits, promoted to `int`.
unfoldable pub base4mb : ℕ → ℕ
base4mb w = sign_extend32 (get_bits 22 10 w * 2 ^ 22)

-- `__linear2physical_legacy4mb`. An entry without the size bit goes on as a directory entry of
-- 4-KB paging, and is not asked whether it is present.
unfoldable pub linear2physical_legacy4mb : Words → ℕ → ℕ → Run ℕ
linear2physical_legacy4mb mem table linearaddr =
    let e = mem (get_pt_entry4mb table linearaddr) in
    if bit_and (get_bits 0 13 e) pttef_page_size == 0
    then through_entry4kb e linearaddr pgt_level_pd
        (λ base. linear2physical_4kb pgt_level_pt mem base linearaddr)
    else (if entry4mb_is_present e
        then ok (add64 (base4mb e) (bit_and linearaddr (2 ^ 22 - 1)))
        else ok not_present)

-- The control bits of include/cpu.h.
abbrev pub x86_cr0_pe : ℕ
x86_cr0_pe = 2 ^ 0

abbrev pub x86_cr0_pg : ℕ
x86_cr0_pg = 2 ^ 31

abbrev pub x86_cr4_pse : ℕ
x86_cr4_pse = 2 ^ 4

abbrev pub x86_cr4_pae : ℕ
x86_cr4_pae = 2 ^ 5

unfoldable pub linear_2_physical : Words → ℕ → ℕ → ℕ → ℕ → Run ℕ
linear_2_physical mem cr0 cr3 cr4 guest_linear =
    if bit_and cr0 x86_cr0_pe == 0
    then ok guest_linear
    else (if bit_and cr4 x86_cr4_pae == 0
        then (if bit_and cr0 x86_cr0_pg == 0
            then ok guest_linear
            else (if bit_and cr4 x86_cr4_pse == 0
                then linear2physical_legacy4kb mem cr3 guest_linear
                else linear2physical_legacy4mb mem cr3 guest_linear))
        else fatal)

-- `mmap_4mb`; the index is an `int`, and flags of -1 stand for the default.
unfoldable pub mmap_4mb : Words → ℕ → ℕ → ℕ → ℕ → Words
mmap_4mb mem table vaddr paddr flags =
    let entry = add64 table (sign_extend32 (shr vaddr 22) * 4) in
    let bits : ℕ =
      if flags == 2 ^ 32 - 1
      then bit_or (bit_or (bit_or pttef_present pttef_rw) pttef_page_size) pttef_us
      else flags in
    update mem entry (
      set_bits 0 13 (set_bits 21 1 (set_bits 13 8 (set_bits 22 10 (mem entry) (shr paddr 22)) 0) 0)
        bits)
