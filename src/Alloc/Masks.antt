-- ===== src/Alloc/Masks.antt =====
-- The index, the offset and the masks of kernel/alloc.c, bit by bit.
use native.Mathlib.Nat.{pow-suc, one-le-pow, pow-le-pow_right}
use hv_sebek.Base.{
  ℕ, suc, ◌-◌, ◌/◌, ◌%◌, ◌^◌, ◌<◌, ◌≡◌, refl, arith, ltb, leb, if◌then◌else◌, sub64, neg64, shl64,
}
use hv_sebek.Base.Bits.{bit, bit_and_mask, bit-low_mask, bit-high_mask}
use hv_sebek.Alloc.{get_alloc_bitmap_idx, get_alloc_bitmap_offset}

pub get_alloc_bitmap_idx_lem : (pfn : ℕ) → get_alloc_bitmap_idx pfn ≡ pfn / 64
unfolding get_alloc_bitmap_idx
get_alloc_bitmap_idx_lem pfn = refl

pub get_alloc_bitmap_offset_lem : (pfn : ℕ) → get_alloc_bitmap_offset pfn ≡ pfn % 64
unfolding get_alloc_bitmap_offset
get_alloc_bitmap_offset_lem pfn = bit_and_mask 6 pfn

two_pow_bound : (n : ℕ) → n < 64 → 2 ^ n < 2 ^ 64
two_pow_bound n h = omega (
  arith,
  pow-suc 2 n,
  pow-le-pow_right {n = 2} (omega arith) {i = suc n} {j = 64} h,
  one-le-pow n 2,
)

pub shl64-one : (n : ℕ) → n < 64 → shl64 1 n ≡ 2 ^ n
shl64-one n h = omega (arith, two_pow_bound n h)

-- `(1UL << n) - 1` has the bits below `n`.
pub bit-sub64-shl64 : (n k : ℕ) → n < 64 → bit (sub64 (shl64 1 n) 1) k ≡ (if ltb k n then 1 else 0)
bit-sub64-shl64 n k h =
    let e : sub64 (shl64 1 n) 1 ≡ 2 ^ n - 1 = omega (arith, two_pow_bound n h, one-le-pow n 2) in
    rw (e, bit-low_mask n k)

-- `-(1UL << n)` has the bits from `n` on.
pub bit-neg64-shl64 :
    (n k : ℕ) → n < 64 → k < 64 → bit (neg64 (shl64 1 n)) k ≡ (if leb n k then 1 else 0)
bit-neg64-shl64 n k h hk =
    let e : neg64 (shl64 1 n) ≡ 2 ^ 64 - 2 ^ n = omega (arith, two_pow_bound n h, one-le-pow n 2) in
    rw (e, bit-high_mask 64 n k (omega arith)) (ground arith)
