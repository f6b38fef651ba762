-- ===== src/Alloc/Marks.antt =====
-- What kernel/alloc.c does to the bitmap, page by page.
use hv_sebek.Base.{
  ℕ, zero, suc, ◌+◌, ◌-◌, ◌/◌, ◌%◌, ◌^◌, ◌≤◌, ◌<◌, ◌≡◌, arith, bit_and, bit_or, ltb, leb, ◌&&◌,
  if◌then◌else◌, Words, update, add64,
}
use hv_sebek.Base.Bits.{bit, bit-lt, bit-bit_or, bit-bit_and, bit-low_mask, bit_of_zero}
use hv_sebek.Alloc.{fill_words, or_region, and_region, or_word, and_word, map_alloc, map_free}
use hv_sebek.Alloc.Masks.{
  get_alloc_bitmap_idx_lem, get_alloc_bitmap_offset_lem, bit-sub64-shl64, bit-neg64-shl64,
}

-- The bit that stands for a page.
abbrev pub mark : Words → ℕ → ℕ
mark tbl p = bit (tbl (p / 64)) (p % 64)

pub fill_words_lem :
    (v rounds idx : ℕ) (tbl : Words) (j : ℕ)
    → fill_words v rounds idx tbl j ≡ (if leb idx j && ltb j (idx + rounds) then v else tbl j)
unfolding fill_words
fill_words_lem v zero idx tbl j = ground arith
fill_words_lem v (suc rounds) idx tbl j =
    ground (arith, fill_words_lem v rounds (idx + 1) (update tbl idx v) j)

-- A region of pages from `first` up to `last`, and a page `p`, with masks that are known at the
-- bit of `p`.
module _ (tbl : Words) (first last p low high : ℕ) (ordered : first ≤ last) where
  mark-or_region :
      bit low (p % 64) ≡ (if ltb (p % 64) (last % 64) then 1 else 0)
      → bit high (p % 64) ≡ (if leb (first % 64) (p % 64) then 1 else 0)
      → mark (or_region tbl (first / 64) (last / 64) low high) p
        ≡ (if leb first p && ltb p last then 1 else mark tbl p)
  unfolding or_region
  mark-or_region bit_low bit_high = ground (
    arith,
    fill_words_lem (2 ^ 64 - 1) (last / 64 - (first / 64 + 1)) (first / 64 + 1)
        (or_word tbl (first / 64) high) (p / 64),
    bit-bit_or (p % 64) (tbl (first / 64)) high,
    bit-bit_or (p % 64) (tbl (last / 64)) low,
    bit-bit_or (p % 64) (tbl (first / 64)) (bit_and low high),
    bit-bit_and (p % 64) low high,
    bit-low_mask 64 (p % 64),
    bit-lt (tbl (p / 64)) (p % 64),
  )

  mark-and_region :
      bit low (p % 64) ≡ (if ltb (p % 64) (first % 64) then 1 else 0)
      → bit high (p % 64) ≡ (if leb (last % 64) (p % 64) then 1 else 0)
      → mark (and_region tbl (first / 64) (last / 64) low high) p
        ≡ (if leb first p && ltb p last then 0 else mark tbl p)
  unfolding and_region
  mark-and_region bit_low bit_high = ground (
    arith,
    fill_words_lem 0 (last / 64 - (first / 64 + 1)) (first / 64 + 1) (and_word tbl (first / 64) low)
        (p / 64),
    bit-bit_and (p % 64) (tbl (first / 64)) low,
    bit-bit_and (p % 64) (tbl (last / 64)) high,
    bit-bit_and (p % 64) (tbl (first / 64)) (bit_or high low),
    bit-bit_or (p % 64) high low,
    bit_of_zero (p % 64),
    bit-lt (tbl (p / 64)) (p % 64),
  )

module _ (tbl : Words) (first nr p : ℕ) (small : first + nr < 2 ^ 64) where
  last : add64 first nr ≡ first + nr
  last = omega arith

  -- After `map_alloc` on a region whose end fits 64 bits, its pages are marked, and the mark of
  -- every other page is what it was.
  pub mark-map_alloc :
      mark (map_alloc tbl first nr) p
      ≡ (if leb first p && ltb p (first + nr) then 1 else mark tbl p)
  unfolding map_alloc
  mark-map_alloc =
      rw
        (
          last,
          get_alloc_bitmap_idx_lem first,
          get_alloc_bitmap_idx_lem (first + nr),
          get_alloc_bitmap_offset_lem first,
          get_alloc_bitmap_offset_lem (first + nr),
        )
        (mark-or_region tbl first (first + nr) p _ _ (omega arith)
          (bit-sub64-shl64 ((first + nr) % 64) (p % 64) (omega arith))
          (bit-neg64-shl64 (first % 64) (p % 64) (omega arith) (omega arith)))

  -- After `map_free` on a region whose end fits 64 bits, its pages are unmarked, and the mark of
  -- every other page is what it was.
  pub mark-map_free :
      mark (map_free tbl first nr) p ≡ (if leb first p && ltb p (first + nr) then 0 else mark tbl p)
  unfolding map_free
  mark-map_free =
      rw
        (
          last,
          get_alloc_bitmap_idx_lem first,
          get_alloc_bitmap_idx_lem (first + nr),
          get_alloc_bitmap_offset_lem first,
          get_alloc_bitmap_offset_lem (first + nr),
        )
        (mark-and_region tbl first (first + nr) p _ _ (omega arith)
          (bit-sub64-shl64 (first % 64) (p % 64) (omega arith))
          (bit-neg64-shl64 ((first + nr) % 64) (p % 64) (omega arith) (omega arith)))
