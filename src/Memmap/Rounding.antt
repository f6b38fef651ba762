-- ===== src/Memmap/Rounding.antt =====
-- `PAGE_UP` and `PAGE_DOWN` of include/page.h round to whole pages.
use hv_sebek.Base.{ℕ, ◌+◌, ◌-◌, ◌*◌, ◌/◌, ◌^◌, ◌<◌, ◌≡◌, arith, add64}
use hv_sebek.Base.Bits.{bit_and-high_mask}
use hv_sebek.Memmap.{page_up, page_down}

pub page_down_lem : (x : ℕ) → x < 2 ^ 64 → page_down x ≡ x / 4096 * 4096
unfolding page_down
page_down_lem x h = bit_and-high_mask 64 12 x (omega arith) h

pub page_up_lem : (x : ℕ) → x + 4095 < 2 ^ 64 → page_up x ≡ (x + 4095) / 4096 * 4096
unfolding page_up
page_up_lem x h =
    let e : add64 x (2 ^ 12 - 1) ≡ x + 4095 = omega arith in
    rw e (bit_and-high_mask 64 12 (x + 4095) (omega arith) h)
