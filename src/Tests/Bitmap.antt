-- ===== src/Tests/Bitmap.antt =====
-- The bitmap of kernel/alloc.c at concrete inputs.
use hv_sebek.Base.{
  ℕ, ◌+◌, ◌-◌, ◌/◌, ◌%◌, ◌^◌, ◌<◌, ◌≡◌, refl, arith, false, ltb, leb, ◌&&◌, if◌then◌else◌, Words,
  update,
}
use hv_sebek.Base.Run.{ok}
use hv_sebek.Base.Bits.{bit-low_mask}
use hv_sebek.Alloc.{
  NaiveAllocator, map_alloc, allocated_in_map, is_free_contiguous_region, is_free_from,
  get_alloc_bitmap_idx, get_alloc_bitmap_offset, alloc_pages, alloc_pages_from,
}
use hv_sebek.Alloc.Marks.{mark}
use hv_sebek.Alloc.Visible.{visible}
use hv_sebek.Alloc.Search.{Outcome, alloc_pages-Outcome, alloc_pages-marks}
use hv_sebek.Alloc.Alias.{LowTaken}

abbrev no_pages : Words
no_pages i = 0

abbrev all_pages : Words
all_pages i = 2 ^ 64 - 1

-- Pages 0 to 7 are taken.
abbrev some_pages : NaiveAllocator
some_pages = record { alloc_bitmap = update no_pages 0 0xff; max_page = 128 }

abbrev low_pages : NaiveAllocator
low_pages = record { alloc_bitmap = update no_pages 0 (2 ^ 32 - 1); max_page = 128 }

alloc_pages-Outcome_example : Outcome 4 2 some_pages (alloc_pages 4 2 some_pages)
alloc_pages-Outcome_example =
    alloc_pages-Outcome 4 2 some_pages (omega arith) (omega arith) (omega arith)

abbrev four_more : NaiveAllocator
four_more = record { alloc_bitmap = map_alloc some_pages.alloc_bitmap 8 4; max_page = 128 }

four_found : alloc_pages 4 2 some_pages ≡ ok (8, four_more)
unfolding alloc_pages alloc_pages_from is_free_contiguous_region is_free_from allocated_in_map
    get_alloc_bitmap_idx get_alloc_bitmap_offset
four_found = refl

alloc_pages-marks_example :
    (8 + 4 < 128)
    × ((k : ℕ) → k < 4 → visible some_pages.alloc_bitmap (8 + k) ≡ false)
    × ((p : ℕ)
        → mark four_more.alloc_bitmap p
          ≡ (if leb 8 p && ltb p (8 + 4) then 1 else mark some_pages.alloc_bitmap p))
alloc_pages-marks_example =
    alloc_pages-marks 4 2 some_pages (omega arith) (omega arith) (omega arith) 8 four_more
      four_found

low_pages-LowTaken : LowTaken low_pages
low_pages-LowTaken p h =
    let word : p / 64 ≡ 0 = omega arith in
    let place : p % 64 ≡ p = omega arith in rw (word, place) (ground (arith, bit-low_mask 32 p))
