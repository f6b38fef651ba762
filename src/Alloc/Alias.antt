-- ===== src/Alloc/Alias.antt =====
-- The allocator hands out a page twice: `allocated_in_map` returns an `int`, so marks in the upper
-- half of a 64-bit word are never seen.
use hv_sebek.Base.{ℕ, ◌+◌, ◌*◌, ◌^◌, ◌<◌, ◌≡◌, ◌≢◌, arith, true, false}
use native.Mathlib.Decide.{dec_lt}
use hv_sebek.Base.Run.{Run, ok, fatal, fault, out_of_fuel}
use hv_sebek.Alloc.{NaiveAllocator, map_alloc, is_free_contiguous_region, alloc_host_pages}
use hv_sebek.Alloc.Marks.{mark, mark-map_alloc}
use hv_sebek.Alloc.Visible.{is_free_contiguous_region_iff}
use hv_sebek.Alloc.Search.{Outcome, alloc_pages-Outcome}

-- Pages 0 to 31 are marked.
abbrev pub LowTaken : NaiveAllocator → Type 0
LowTaken a = (p : ℕ) → p < 32 → mark a.alloc_bitmap p ≡ 1

module _ (nr : ℕ) (a : NaiveAllocator) (some_pages : 0 < nr) (few : nr < 33)
    (enough : 32 + nr < a.max_page) (small : a.max_page + 1 < 2 ^ 64) (low : LowTaken a) where
  unseen : is_free_contiguous_region a.alloc_bitmap (32 * 1) nr ≡ true
  unseen =
      (is_free_contiguous_region_iff a.alloc_bitmap 32 nr (omega arith)).1 (λ k h. ground arith)

  seen : (q : ℕ) → q < 32 → is_free_contiguous_region a.alloc_bitmap (q * 1) nr ≢ true
  seen q h free = ground (
    arith,
    low q h,
    (is_free_contiguous_region_iff a.alloc_bitmap (q * 1) nr (omega arith)).0 free 0,
  )

  at_32 :
      {i : ℕ} (q : ℕ)
      → i ≡ q * 1
      → is_free_contiguous_region a.alloc_bitmap (q * 1) nr ≡ true
      → ((j : ℕ) → j < q → is_free_contiguous_region a.alloc_bitmap (j * 1) nr ≡ false)
      → i ≡ 32
  at_32 q e free first = elim (dec_lt q 32) [
    | yes lt ↦ absurd (seen q lt free)
    | no ge ↦ elim (dec_lt 32 q) [
      | yes gt ↦ absurd (ground (arith, first 32 gt, unseen))
      | no le ↦ omega arith
    ]
  ]

  ends_at :
      (r : Run (ℕ × NaiveAllocator))
      → Outcome nr 1 a r
      → r ≡ ok (32, record a { alloc_bitmap = map_alloc a.alloc_bitmap 32 nr })
  ends_at (ok (i, a')) (q, found) =
      let at : i ≡ 32 = at_32 q found.candidate found.free found.first in rw (found.taken, at)
  ends_at fatal none_fits = absurd (ground (arith, none_fits 32 (omega arith), unseen))
  ends_at fault o = absurd o
  ends_at out_of_fuel o = absurd o

  pub low_again : LowTaken (record a { alloc_bitmap = map_alloc a.alloc_bitmap 32 nr })
  low_again p h = ground (arith, mark-map_alloc a.alloc_bitmap 32 nr p (omega arith), low p h)

  pub alloc_host_pages_32 :
      alloc_host_pages nr 1 a ≡ ok (32, record a { alloc_bitmap = map_alloc a.alloc_bitmap 32 nr })
  unfolding alloc_host_pages
  alloc_host_pages_32 = ends_at _ (alloc_pages-Outcome nr 1 a (omega arith) small (omega arith))

-- Once pages 0 to 31 are marked, with more than 33 pages in the map, every call for one page
-- returns page 32, also when page 32 is marked: a second call returns the same page again, and
-- pages 0 to 31 are still marked, so each later call does too.
pub alloc_host_pages_alias :
    (a : NaiveAllocator)
    → 33 < a.max_page
    → a.max_page + 1 < 2 ^ 64
    → LowTaken a
    → (b c : NaiveAllocator) × (alloc_host_pages 1 1 a ≡ ok (32, b))
      × (alloc_host_pages 1 1 b ≡ ok (32, c))
      × (mark b.alloc_bitmap 32 ≡ 1)
      × LowTaken c
alloc_host_pages_alias a enough small low =
    let b : NaiveAllocator = record a { alloc_bitmap = map_alloc a.alloc_bitmap 32 1 } in
    let c : NaiveAllocator = record a { alloc_bitmap = map_alloc b.alloc_bitmap 32 1 } in
    let low_b = low_again 1 a (omega arith) (omega arith) enough small low in
    (
      b,
      c,
      alloc_host_pages_32 1 a (omega arith) (omega arith) enough small low,
      alloc_host_pages_32 1 b (omega arith) (omega arith) enough small low_b,
      ground (arith, mark-map_alloc a.alloc_bitmap 32 1 32 (omega arith)),
      low_again 1 b (omega arith) (omega arith) enough small low_b,
    )
