-- ===== src/Tests/Paging.antt =====
-- The page tables of kernel/page.c and the segments of kernel/segment.c at concrete inputs.
use hv_sebek.Base.{ℕ, ◌*◌, ◌/◌, ◌%◌, ◌^◌, ◌<◌, ◌≡◌, refl, arith, Words, update, add64}
use hv_sebek.Base.Run.{ok}
use hv_sebek.Alloc.{
  map_alloc, allocated_in_map, is_free_contiguous_region, get_alloc_bitmap_idx,
  get_alloc_bitmap_offset, alloc_pages, alloc_host_pages,
}
use hv_sebek.Page.{
  Host, clear_page, non_term_entry, ensure_table, get_entry, get_index_pae2mb, next_table,
  mmap_pml4, linear2physical_legacy2mb,
}
use hv_sebek.Page.Walk.{descend, mmap_pml4-below}
use hv_sebek.Legacy.{linear_2_physical}
use hv_sebek.Legacy.Paging.{linear_2_physical-translate}
use hv_sebek.Segment.{Vmcb, read64, glogic_2_glinear, glogic_2_hphysic}
use hv_sebek.Segment.Base.{descriptor, glogic_2_glinear-descriptor}

abbrev no_words : Words
no_words a = 0

-- Pages 0 to 7 are taken; the top table is page 4, and empty.
abbrev host : Host
host = record {
  mem = no_words;
  nalloc = record { alloc_bitmap = update no_words 0 0xff; max_page = 128 };
}

abbrev with_table : Host → ℕ → ℕ → Host
with_table h entry pfn =
    let mem = clear_page h.mem (pfn * 4096) in
    record {
      mem = update mem entry (non_term_entry (mem entry) (pfn * 4096));
      nalloc = record { alloc_bitmap = map_alloc h.nalloc.alloc_bitmap pfn 1; max_page = 128 };
    }

abbrev host₁ : Host
host₁ = with_table host 0x4000 8

abbrev host₂ : Host
host₂ = with_table host₁ 0x8008 9

first_level : descend 4 host 0x4000 0x40200123 ≡ ok (host₁, 0x8000)
unfolding ensure_table get_entry get_index_pae2mb next_table alloc_host_pages alloc_pages
    is_free_contiguous_region allocated_in_map get_alloc_bitmap_idx get_alloc_bitmap_offset
first_level = refl

second_level : descend 3 host₁ 0x8000 0x40200123 ≡ ok (host₂, 0x9000)
unfolding ensure_table get_entry get_index_pae2mb next_table alloc_host_pages alloc_pages
    is_free_contiguous_region allocated_in_map get_alloc_bitmap_idx get_alloc_bitmap_offset
    map_alloc
second_level = refl

mmap_pml4-below_example :
    (h' : Host) × (mmap_pml4 host 0x4000 0x40200123 0x600000 0 ≡ ok h')
    × (linear2physical_legacy2mb h'.mem 0x4000 0x40200123 ≡ ok 0x600123)
mmap_pml4-below_example =
    mmap_pml4-below host 0x4000 0x40200123 0x600000 0 host₁ host₂ 0x8000 0x9000 (omega arith) refl
      (omega arith) first_level second_level (λ e. omega (arith, e)) (λ e. omega (arith, e))
      (λ e. omega (arith, e)) (omega arith) (omega arith)

-- A directory at 0x1000 whose entry 1 leads to the table at 0x2000, in which entry 2 maps 0x5000.
abbrev guest : Words
guest = update (update no_words 0x1004 0x2007) 0x2008 0x5007

guest_low : (a : ℕ) → a % 4 ≡ 0 → guest a < 2 ^ 31
guest_low a aligned = ground arith

linear_2_physical-translate_example :
    linear_2_physical guest 0x80000001 0x1000 0x10 0x402345 ≡ ok 0x5345
linear_2_physical-translate_example =
    linear_2_physical-translate guest guest_low 0x402345 (omega arith) 0x1000 (omega arith) refl
      0x80000001 0x10 refl refl refl (λ e. refl)

-- A descriptor at 0x5010, where the guest sees its table at 0x402000.
abbrev segments : Words
segments =
    update (update guest 0x5010 (descriptor 0x400000 0xffff 0xcf92 % 2 ^ 32)) 0x5014
      (descriptor 0x400000 0xffff 0xcf92 / 2 ^ 32)

segments_low : (a : ℕ) → a % 4 ≡ 0 → segments a < 2 ^ 31
segments_low a aligned = ground arith

abbrev vmcb : Vmcb
vmcb = record { cr0 = 0x80000001; cr3 = 0x1000; cr4 = 0x10; gdtr_base = 0x402000 }

found : linear_2_physical segments 0x80000001 0x1000 0x10 0x402010 ≡ ok 0x5010
found =
    linear_2_physical-translate segments segments_low 0x402010 (omega arith) 0x1000 (omega arith)
      refl 0x80000001 0x10 refl refl refl (λ e. refl)

read : read64 segments 0x5010 ≡ descriptor 0x400000 0xffff 0xcf92
unfolding read64
read = refl

glogic_2_glinear-descriptor_example :
    (glogic_2_glinear segments vmcb 0x10 0x2345 ≡ ok (add64 0x400000 0x2345))
    × (glogic_2_hphysic segments vmcb 0x10 0x2345
        ≡ linear_2_physical segments 0x80000001 0x1000 0x10 (add64 0x400000 0x2345))
glogic_2_glinear-descriptor_example =
    glogic_2_glinear-descriptor segments vmcb 0x10 0x2345 refl refl 0x5010 0x400000 0xffff 0xcf92
      (λ e. omega (arith, e)) found read (omega arith) (omega arith) (omega arith)
