-- ===== src/Page/Entry.antt =====
-- The entries of the 2-MB page tables in kernel/page.c: what is written is what is read.
use hv_sebek.Base.{
  ℕ, zero, suc, ◌+◌, ◌*◌, ◌/◌, ◌%◌, ◌^◌, ◌≤◌, ◌<◌, ◌≡◌, refl, arith, true, bit_and, ◌==◌, add64,
  shr, get_bits, set_bits, sign_extend32, Bool-cases, inl, inr,
}
use hv_sebek.Base.Run.{ok}
use hv_sebek.Base.Bits.{bit_and_mask}
use hv_sebek.Page.{
  entry2mb_is_present, term_entry, non_term_entry, page_2mb, next_table, get_index_pae2mb,
  get_entry, term_flags,
}

pub present_lem : (w : ℕ) → entry2mb_is_present w ≡ (w % 2 == 1)
unfolding entry2mb_is_present
present_lem w = rw (bit_and_mask 1 (get_bits 0 21 w)) (ground arith)

flags-term_entry :
    (w paddr is_user : ℕ) → get_bits 0 21 (term_entry w paddr is_user) ≡ term_flags is_user
unfolding term_entry
flags-term_entry w paddr is_user = elim (Bool-cases (is_user == 0)) [
  | inl kernel ↦ rw kernel (omega arith)
  | inr user ↦ rw user (omega arith)
]

base-term_entry :
    (w paddr is_user : ℕ) → get_bits 21 31 (term_entry w paddr is_user) ≡ paddr / 2 ^ 21 % 2 ^ 31
unfolding term_entry
base-term_entry w paddr is_user = omega arith

pub present-term_entry :
    (w paddr is_user : ℕ) → entry2mb_is_present (term_entry w paddr is_user) ≡ true
unfolding entry2mb_is_present
present-term_entry w paddr is_user =
    rw (flags-term_entry w paddr is_user)
      (elim (Bool-cases (is_user == 0)) [ inl kernel ↦ rw kernel | inr user ↦ rw user ])

-- The translation through an entry of a page directory.
pub page_2mb-term_entry :
    (w paddr is_user vaddr : ℕ)
    → page_2mb (term_entry w paddr is_user) vaddr
      ≡ ok (add64 (sign_extend32 (paddr / 2 ^ 21 % 2 ^ 31 * 2 ^ 21)) (vaddr % 2 ^ 21))
unfolding page_2mb
page_2mb-term_entry w paddr is_user vaddr =
    rw (flags-term_entry w paddr is_user, base-term_entry w paddr is_user, bit_and_mask 21 vaddr)
      (elim (Bool-cases (is_user == 0)) [ inl kernel ↦ rw kernel | inr user ↦ rw user ])

pub present-non_term_entry : (w paddr : ℕ) → entry2mb_is_present (non_term_entry w paddr) ≡ true
unfolding non_term_entry
present-non_term_entry w paddr =
    rw (present_lem (set_bits 0 12 (set_bits 12 40 w (shr paddr 12)) 7)) (ground arith)

pub next_table-non_term_entry :
    (w pfn : ℕ) → pfn < 2 ^ 28 → next_table (non_term_entry w (pfn * 4096)) ≡ pfn * 4096
unfolding non_term_entry next_table
next_table-non_term_entry w pfn h = omega arith

pub next_table-IsAligned : (w : ℕ) → (next_table w % 4096 ≡ 0) × (next_table w + 4096 ≤ 2 ^ 64)
unfolding next_table
next_table-IsAligned w = omega arith

-- The word at `entry` lies in the page at `base`.
pub record IsIn (base entry : ℕ) : Type 0 where
  pub from : base ≤ entry
  pub to : entry < base + 4096

-- The entry for an address at one of the levels 4, 3 and 2 lies in the table.
pub get_entry-IsIn :
    (base vaddr level : ℕ)
    → 1 < level
    → level < 5
    → base + 4096 ≤ 2 ^ 64
    → (entry : ℕ) × (get_entry base vaddr level ≡ ok entry) × IsIn base entry
unfolding get_entry get_index_pae2mb
get_entry-IsIn base vaddr level lo hi fits = at level lo hi
  where
    slot : ℕ → ℕ
    slot shift = add64 base (bit_and (shr vaddr shift) 511 * 8)

    inside : (shift : ℕ) → IsIn base (slot shift)
    inside shift = omega (arith, bit_and_mask 9 (shr vaddr shift))

    at :
        (l : ℕ)
        → 1 < l
        → l < 5
        → (entry : ℕ) × (get_entry base vaddr l ≡ ok entry) × IsIn base entry
    at zero p q = absurd (omega arith)
    at (suc zero) p q = absurd (omega arith)
    at (suc (suc zero)) p q = (slot 21, refl, inside 21)
    at (suc (suc (suc zero))) p q = (slot 30, refl, inside 30)
    at (suc (suc (suc (suc zero)))) p q = (slot 39, refl, inside 39)
    at (suc (suc (suc (suc (suc n))))) p q = absurd (omega arith)
