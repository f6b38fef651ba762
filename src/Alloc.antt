-- ===== src/Alloc.antt =====
-- kernel/alloc.c and `struct naive_allocator` of include/alloc.h: the bitmap that manages host
-- pages. A bit is 1 where the page is taken.
pub mod Masks
pub mod Marks
pub mod Visible
pub mod Search
pub mod Alias
use hv_sebek.Base.{
  ℕ, zero, suc, ◌+◌, ◌-◌, ◌^◌, ◌%◌, Bool, true, false, not, bit_and, bit_or, ltb, leb, ◌==◌,
  if◌then◌else◌, Words, update, add64, sub64, neg64, shl64, shr,
}
use hv_sebek.Base.Run.{Run, ok, fatal, out_of_fuel}

-- `alloc_bitmap` points at memory, which is given as the words from there on.
pub record NaiveAllocator : Type 0 where
  pub alloc_bitmap : Words
  pub max_page : ℕ

abbrev pub alloc_bitmap_shift : ℕ
alloc_bitmap_shift = 6

unfoldable pub get_alloc_bitmap_idx : ℕ → ℕ
get_alloc_bitmap_idx pfn = shr pfn alloc_bitmap_shift

unfoldable pub get_alloc_bitmap_offset : ℕ → ℕ
get_alloc_bitmap_offset pfn = bit_and pfn (2 ^ alloc_bitmap_shift - 1)

-- The result is an `int`: of the word that is tested, the low 32 bits are returned.
unfoldable pub allocated_in_map : Words → ℕ → ℕ
allocated_in_map tbl pfn =
    bit_and (tbl (get_alloc_bitmap_idx pfn)) (shl64 1 (get_alloc_bitmap_offset pfn)) % 2 ^ 32

-- `for (; idx < end; idx++) tbl[idx] = v`, over the rounds that are left.
unfoldable pub fill_words : ℕ → ℕ → ℕ → Words → Words
fill_words v zero idx tbl = tbl
fill_words v (suc rounds) idx tbl = fill_words v rounds (idx + 1) (update tbl idx v)

-- `tbl[idx] |= mask` and `tbl[idx] &= mask`
abbrev pub or_word : Words → ℕ → ℕ → Words
or_word tbl idx mask = update tbl idx (bit_or (tbl idx) mask)

abbrev pub and_word : Words → ℕ → ℕ → Words
and_word tbl idx mask = update tbl idx (bit_and (tbl idx) mask)

-- The two cases of `map_alloc`, with `low` for `(1UL << end_off) - 1` and `high` for
-- `-(1UL << start_off)`. After the loop `curr_idx` stands at the end, or one past the start if
-- that is further on.
unfoldable pub or_region : Words → ℕ → ℕ → ℕ → ℕ → Words
or_region tbl curr_idx end_idx low high =
    let rounds = end_idx - (curr_idx + 1) in
    let first_words = or_word tbl curr_idx high in
    let full_words = fill_words (2 ^ 64 - 1) rounds (curr_idx + 1) first_words in
    if curr_idx == end_idx
    then or_word tbl curr_idx (bit_and low high)
    else or_word full_words (curr_idx + 1 + rounds) low

unfoldable pub map_alloc : Words → ℕ → ℕ → Words
unfolding or_region
map_alloc tbl first_page nr_pages =
    or_region tbl (get_alloc_bitmap_idx first_page)
      (get_alloc_bitmap_idx (add64 first_page nr_pages))
      (sub64 (shl64 1 (get_alloc_bitmap_offset (add64 first_page nr_pages))) 1)
      (neg64 (shl64 1 (get_alloc_bitmap_offset first_page)))

-- The two cases of `map_free`, with `low` for `(1UL << start_off) - 1` and `high` for
-- `-(1UL << end_off)`.
unfoldable pub and_region : Words → ℕ → ℕ → ℕ → ℕ → Words
and_region tbl curr_idx end_idx low high =
    let rounds = end_idx - (curr_idx + 1) in
    let first_words = and_word tbl curr_idx low in
    let empty_words = fill_words 0 rounds (curr_idx + 1) first_words in
    if curr_idx == end_idx
    then and_word tbl curr_idx (bit_or high low)
    else and_word empty_words (curr_idx + 1 + rounds) high

unfoldable pub map_free : Words → ℕ → ℕ → Words
unfolding and_region
map_free tbl first_page nr_pages =
    and_region tbl (get_alloc_bitmap_idx first_page)
      (get_alloc_bitmap_idx (add64 first_page nr_pages))
      (sub64 (shl64 1 (get_alloc_bitmap_offset first_page)) 1)
      (neg64 (shl64 1 (get_alloc_bitmap_offset (add64 first_page nr_pages))))

-- The loop of `is_free_contiguous_region`, from `i` on with so many rounds left.
unfoldable pub is_free_from : Words → ℕ → ℕ → ℕ → Bool
is_free_from tbl pfn zero i = true
is_free_from tbl pfn (suc rounds) i =
    let rest = is_free_from tbl pfn rounds (i + 1) in
    if allocated_in_map tbl (add64 pfn i) == 0 then rest else false

unfoldable pub is_free_contiguous_region : Words → ℕ → ℕ → Bool
unfolding is_free_from
is_free_contiguous_region tbl pfn nr_pfns = is_free_from tbl pfn nr_pfns 0

-- The loop of `alloc_pages` at `i`. A call that finds nothing ends in `fatal_failure`.
unfoldable pub alloc_pages_from : ℕ → ℕ → ℕ → NaiveAllocator → ℕ → Run (ℕ × NaiveAllocator)
alloc_pages_from zero nr_pfns pfn_align nalloc i = out_of_fuel
alloc_pages_from (suc fuel) nr_pfns pfn_align nalloc i =
    let rest = alloc_pages_from fuel nr_pfns pfn_align nalloc (add64 i pfn_align) in
    let found : NaiveAllocator = record nalloc {
      alloc_bitmap = map_alloc nalloc.alloc_bitmap i nr_pfns;
    } in
    if ltb (add64 i nr_pfns) nalloc.max_page
    then (if is_free_contiguous_region nalloc.alloc_bitmap i nr_pfns then ok (i, found) else rest)
    else fatal

-- One round for each page, and one to see the end: enough for any positive `pfn_align`.
unfoldable pub alloc_pages : ℕ → ℕ → NaiveAllocator → Run (ℕ × NaiveAllocator)
unfolding alloc_pages_from
alloc_pages nr_pfns pfn_align nalloc =
    alloc_pages_from (nalloc.max_page + 1) nr_pfns pfn_align nalloc 0

-- `alloc_host_pages`: the static `host_naive_allocator` is passed in and returned.
unfoldable pub alloc_host_pages : ℕ → ℕ → NaiveAllocator → Run (ℕ × NaiveAllocator)
alloc_host_pages nr_pfns pfn_align nalloc = alloc_pages nr_pfns pfn_align nalloc
