-- ===== src/Nested/Hidden.antt =====
-- Which pages the loop of kernel/vm.c that fills the nested page tables passes over.
use hv_sebek.Base.{
  ℕ, ◌+◌, ◌-◌, ◌*◌, ◌/◌, ◌^◌, ◌≤◌, ◌<◌, ◌≡◌, ◌⊎◌, ◌∙◌, arith, Bool, true, ◌&&◌, ◌||◌, not, leb, ltb,
  ◌==◌, add64,
}
use hv_sebek.Base.Bits.{bit_and-high_mask}
use hv_sebek.Nested.{vmm_pagestart, vmm_pageend, is_passed_over}

-- The first page of 2 MB of the host's memory, and the one behind its last.
abbrev pub first_page : ℕ → ℕ
first_page vmm_pmem_start = vmm_pmem_start / 2 ^ 21

abbrev pub page_behind : ℕ → ℕ → ℕ
page_behind vmm_pmem_start vmm_pmem_size = (vmm_pmem_start + vmm_pmem_size + 2 ^ 21 - 1) / 2 ^ 21

-- A page that the guest is to see: it stands outside of the host's memory, and not directly before
-- it, if that has more than one page.
abbrev pub is_guest_page : ℕ → ℕ → ℕ → Bool
is_guest_page first behind i =
    (ltb i first || leb behind i) && not (i + 1 == first && ltb (first + 1) behind)

module _ (vmm_pmem_start vmm_pmem_size : ℕ) (below : vmm_pmem_start + vmm_pmem_size < 2 ^ 32)
    (some : 0 < vmm_pmem_size) where
  start_lem : vmm_pagestart 21 vmm_pmem_start ≡ first_page vmm_pmem_start * 2 ^ 21
  start_lem = bit_and-high_mask 64 21 vmm_pmem_start (omega arith) (omega arith)

  end_lem :
      vmm_pageend 21 vmm_pmem_start vmm_pmem_size
      ≡ page_behind vmm_pmem_start vmm_pmem_size * 2 ^ 21 - 1
  end_lem = omega (
    arith,
    bit_and-high_mask 64 21 (add64 (add64 vmm_pmem_start vmm_pmem_size) (2 ^ 21 - 1)) (omega arith)
        (omega arith),
  )

  passed_lem :
      (i : ℕ)
      → i < 1024
      → is_passed_over 21
          (vmm_pagestart 21 vmm_pmem_start)
          (vmm_pageend 21 vmm_pmem_start vmm_pmem_size)
          (i * 2 ^ 21)
        ≡ not
            (is_guest_page (first_page vmm_pmem_start) (page_behind vmm_pmem_start vmm_pmem_size) i)
  unfolding is_passed_over
  passed_lem i small = rw (start_lem, end_lem) (ground arith)

  -- The loop passes over every page in which an address of the host's memory stands.
  pub is_passed_over-host :
      (address : ℕ)
      → address < 2 ^ 31
      → vmm_pmem_start ≤ address
      → address < vmm_pmem_start + vmm_pmem_size
      → is_passed_over 21
          (vmm_pagestart 21 vmm_pmem_start)
          (vmm_pageend 21 vmm_pmem_start vmm_pmem_size)
          (address / 2 ^ 21 * 2 ^ 21)
        ≡ true
  is_passed_over-host address low above behind =
      passed_lem (address / 2 ^ 21) (omega arith) ∙ ground arith

  -- Of the pages below 2 GB before the host's memory and behind it, the loop passes over none but
  -- the one directly before a memory of more than one page.
  pub is_passed_over-guest :
      (address : ℕ)
      → address < 2 ^ 31
      → address / 2 ^ 21 < first_page vmm_pmem_start
        ⊎ page_behind vmm_pmem_start vmm_pmem_size ≤ address / 2 ^ 21
      → is_passed_over 21
          (vmm_pagestart 21 vmm_pmem_start)
          (vmm_pageend 21 vmm_pmem_start vmm_pmem_size)
          (address / 2 ^ 21 * 2 ^ 21)
        ≡ (address / 2 ^ 21 + 1 == first_page vmm_pmem_start
            && ltb (first_page vmm_pmem_start + 1) (page_behind vmm_pmem_start vmm_pmem_size))
  is_passed_over-guest address low outside =
      passed_lem (address / 2 ^ 21) (omega arith) ∙ ground arith
