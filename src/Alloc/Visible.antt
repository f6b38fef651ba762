-- ===== src/Alloc/Visible.antt =====
-- `allocated_in_map` and `is_free_contiguous_region` of kernel/alloc.c against the marks.
use native.Mathlib.Nat.{pow-suc, one-le-pow, pow-le-pow_right}
use hv_sebek.Base.{
  ℕ, zero, suc, ◌+◌, ◌-◌, ◌*◌, ◌/◌, ◌%◌, ◌^◌, ◌≤◌, ◌<◌, ◌≡◌, ◌↔◌, refl, ap, arith, Bool, true,
  false, not, ltb, ◌==◌, ◌&&◌, Words, add64, Bool-cases, inl, inr,
}
use hv_sebek.Base.Bits.{bit-lt, bit_and-two_pow}
use hv_sebek.Alloc.{allocated_in_map, is_free_from, is_free_contiguous_region}
use hv_sebek.Alloc.Masks.{get_alloc_bitmap_idx_lem, get_alloc_bitmap_offset_lem, shl64-one}
use hv_sebek.Alloc.Marks.{mark}

two_pow_above : (d n : ℕ) → n ≡ d + 32 → 2 ^ n % 2 ^ 32 ≡ 0
two_pow_above zero n e = let e' : n ≡ 32 = omega arith in rw e'
two_pow_above (suc d) n e =
    let e' : n ≡ suc (d + 32) = omega arith in
    rw e' (omega (arith, pow-suc 2 (d + 32), two_pow_above d (d + 32) refl))

two_pow_below : (n : ℕ) → n < 32 → 2 ^ n < 2 ^ 32
two_pow_below n h = omega (
  arith,
  pow-suc 2 n,
  pow-le-pow_right {n = 2} (omega arith) {i = suc n} {j = 32} h,
  one-le-pow n 2,
)

-- A mark that the `int` result of `allocated_in_map` keeps.
abbrev pub visible : Words → ℕ → Bool
visible tbl p = ltb (p % 64) 32 && mark tbl p == 1

kept : (b k : ℕ) → b < 2 → k < 64 → (b * 2 ^ k % 2 ^ 32 == 0) ≡ not (ltb k 32 && b == 1)
kept zero k hb hk = ground arith
kept (suc zero) k hb hk = elim (Bool-cases (ltb k 32)) [
  | inl low ↦ ground (arith, two_pow_below k (ground arith), one-le-pow k 2)
  | inr high ↦ ground (arith, two_pow_above (k - 32) k (ground arith))
]
kept (suc (suc b)) k hb hk = absurd (omega arith)

-- `allocated_in_map` reports a page, by a value other than 0, exactly when the page is marked and
-- stands in the lower half of its word.
pub allocated_in_map-visible :
    (tbl : Words) (p : ℕ) → (allocated_in_map tbl p == 0) ≡ not (visible tbl p)
unfolding allocated_in_map
allocated_in_map-visible tbl p =
    rw
      (
        get_alloc_bitmap_idx_lem p,
        get_alloc_bitmap_offset_lem p,
        shl64-one (p % 64) (omega arith),
        bit_and-two_pow (p % 64) (tbl (p / 64)),
      )
      (kept (mark tbl p) (p % 64) (bit-lt (tbl (p / 64)) (p % 64)) (omega arith))

module _ (tbl : Words) (pfn : ℕ) where
  is_free_from_sound :
      (rounds i k : ℕ)
      → is_free_from tbl pfn rounds i ≡ true
      → pfn + i + rounds < 2 ^ 64
      → i ≤ k
      → k < i + rounds
      → visible tbl (pfn + k) ≡ false
  unfolding is_free_from
  is_free_from_sound zero i k free small lo hi = absurd (omega arith)
  is_free_from_sound (suc rounds) i k free small lo hi =
      let here : add64 pfn i ≡ pfn + i = omega arith in
      elim (Bool-cases (k == i)) [
        | inl same ↦
            let e : k ≡ i = ground arith in
            rw e (
              ground
                (arith, ap (allocated_in_map tbl) here, allocated_in_map-visible tbl (pfn + i)))
        | inr other ↦
            is_free_from_sound rounds (i + 1) k (ground arith) (omega arith) (ground arith)
              (omega arith)
      ]

  is_free_from_complete :
      (rounds i : ℕ)
      → pfn + i + rounds < 2 ^ 64
      → ((k : ℕ) → i ≤ k → k < i + rounds → visible tbl (pfn + k) ≡ false)
      → is_free_from tbl pfn rounds i ≡ true
  unfolding is_free_from
  is_free_from_complete zero i small unseen = refl
  is_free_from_complete (suc rounds) i small unseen =
      let here : add64 pfn i ≡ pfn + i = omega arith in
      let rest =
        is_free_from_complete rounds (i + 1) (omega arith)
          (λ k lo hi. unseen k (omega arith) (omega arith)) in
      rw (here, allocated_in_map-visible tbl (pfn + i), unseen i (omega arith) (omega arith)) rest

  -- Where the region ends below 2 ^ 64, `is_free_contiguous_region` accepts it exactly when none
  -- of its pages is marked in the lower half of its word.
  pub is_free_contiguous_region_iff :
      (nr : ℕ)
      → pfn + nr < 2 ^ 64
      → (is_free_contiguous_region tbl pfn nr ≡ true)
        ↔ ((k : ℕ) → k < nr → visible tbl (pfn + k) ≡ false)
  unfolding is_free_contiguous_region
  is_free_contiguous_region_iff nr small = (
    λ free k hk. is_free_from_sound nr 0 k free (omega arith) (omega arith) (omega arith),
    λ unseen. is_free_from_complete nr 0 (omega arith) (λ k lo hi. unseen k (omega arith)),
  )
