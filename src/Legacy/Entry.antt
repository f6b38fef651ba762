-- ===== src/Legacy/Entry.antt =====
-- The fields of a 32-bit page-table entry in kernel/page.c, as numbers.
use hv_sebek.Base.{ℕ, ◌*◌, ◌/◌, ◌%◌, ◌^◌, ◌<◌, ◌≡◌, arith, not, bit_and, ◌==◌, get_bits}
use hv_sebek.Base.Run.{ok}
use hv_sebek.Base.Bits.{bit_and_mask, flag_lem}
use hv_sebek.Legacy.{entry4kb_is_present, entry4mb_is_present, base4kb, base4mb, get_index_4kb}
use hv_sebek.Page.{pttef_page_size}

pub present4kb_lem : (w : ℕ) → entry4kb_is_present w ≡ not (w % 2 == 0)
unfolding entry4kb_is_present
present4kb_lem w = ground (arith, flag_lem 0 (get_bits 0 12 w))

pub present4mb_lem : (w : ℕ) → entry4mb_is_present w ≡ not (w % 2 == 0)
unfolding entry4mb_is_present
present4mb_lem w = ground (arith, flag_lem 0 (get_bits 0 13 w))

pub page_size_lem : (w : ℕ) → (bit_and (get_bits 0 13 w) pttef_page_size == 0) ≡ (w / 128 % 2 == 0)
page_size_lem w = ground (arith, flag_lem 7 (get_bits 0 13 w))

pub base4kb_lem : (w : ℕ) → w < 2 ^ 31 → base4kb w ≡ w / 2 ^ 12 * 2 ^ 12
unfolding base4kb
base4kb_lem w h = omega arith

pub base4mb_lem : (w : ℕ) → w < 2 ^ 31 → base4mb w ≡ w / 2 ^ 22 * 2 ^ 22
unfolding base4mb
base4mb_lem w h = omega arith

pub pd_index : (v : ℕ) → v < 2 ^ 32 → get_index_4kb v 2 ≡ ok (v / 2 ^ 22)
unfolding get_index_4kb
pd_index v h = rw (bit_and_mask 10 (v / 2 ^ 22)) (ground arith)

pub pt_index : (v : ℕ) → get_index_4kb v 1 ≡ ok (v / 2 ^ 12 % 2 ^ 10)
unfolding get_index_4kb
pt_index v = rw (bit_and_mask 10 (v / 2 ^ 12))
