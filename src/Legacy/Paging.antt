-- ===== src/Legacy/Paging.antt =====
-- `linear_2_physical` of kernel/page.c against 32-bit paging as the processor defines it.
use hv_sebek.Base.{
  ℕ, ◌+◌, ◌*◌, ◌/◌, ◌%◌, ◌^◌, ◌<◌, ◌≡◌, inl, inr, ap, ◌∙◌, arith, Bool, true, false, not, ◌==◌,
  ◌&&◌, ◌||◌, if◌then◌else◌, Words, add64, Bool-cases, Option, none, some,
}
use hv_sebek.Base.Run.{ok}
use hv_sebek.Base.Bits.{bit_and_mask, flag_lem}
use hv_sebek.Legacy.{
  not_present, get_entry4kb, through_entry4kb, linear2physical_4kb, linear2physical_legacy4kb,
  linear2physical_legacy4mb, get_pt_entry4mb, linear_2_physical,
}
use hv_sebek.Legacy.Entry.{
  present4kb_lem, present4mb_lem, page_size_lem, base4kb_lem, base4mb_lem, pd_index, pt_index,
}

-- The entries that the processor reads for an address.
abbrev pub directory_entry : Words → ℕ → ℕ → ℕ
directory_entry mem cr3 v = mem (cr3 + v / 2 ^ 22 * 4)

abbrev pub table_entry : Words → ℕ → ℕ → ℕ
table_entry mem pde v = mem (pde / 2 ^ 12 * 2 ^ 12 + v / 2 ^ 12 % 2 ^ 10 * 4)

abbrev pub present : ℕ → Bool
present w = not (w % 2 == 0)

abbrev pub large : ℕ → Bool
large w = not (w / 2 ^ 7 % 2 == 0)

-- 32-bit paging: with page size extension, a large directory entry maps 4 MB; otherwise it leads
-- to a table, whose entry maps 4 KB. An entry that is not present ends the walk.
abbrev pub translate : Words → ℕ → Bool → ℕ → Option ℕ
translate mem cr3 pse v =
    let pde = directory_entry mem cr3 v in
    let pte = table_entry mem pde v in
    if present pde
    then (if pse && large pde
        then some (pde / 2 ^ 22 * 2 ^ 22 + v % 2 ^ 22)
        else (if present pte then some (pte / 2 ^ 12 * 2 ^ 12 + v % 2 ^ 12) else none))
    else none

-- How the code returns it.
abbrev pub address_of : Option ℕ → ℕ
address_of none = not_present
address_of (some a) = a

module _ (mem : Words) (low : (a : ℕ) → a % 4 ≡ 0 → mem a < 2 ^ 31) (v : ℕ)
    (linear : v < 2 ^ 32) where
  table_low : (pde : ℕ) → table_entry mem pde v < 2 ^ 31
  table_low pde = low (pde / 2 ^ 12 * 2 ^ 12 + v / 2 ^ 12 % 2 ^ 10 * 4) (omega arith)

  -- The walk from a page table on.
  pub walk_table :
      (pde : ℕ)
      → pde < 2 ^ 31
      → linear2physical_4kb 1 mem (pde / 2 ^ 12 * 2 ^ 12) v
        ≡ ok (
            address_of (
              if present (table_entry mem pde v)
              then some (table_entry mem pde v / 2 ^ 12 * 2 ^ 12 + v % 2 ^ 12)
              else none))
  unfolding linear2physical_4kb get_entry4kb through_entry4kb
  walk_table pde small =
      let at : add64 (pde / 2 ^ 12 * 2 ^ 12) (v / 2 ^ 12 % 2 ^ 10 * 4)
          ≡ pde / 2 ^ 12 * 2 ^ 12 + v / 2 ^ 12 % 2 ^ 10 * 4 =
        omega arith in
      let pte = table_entry mem pde v in
      rw (pt_index v, at, present4kb_lem pte)
        (elim (Bool-cases (pte % 2 == 0)) [
          | inl absent ↦ rw absent
          | inr there ↦
              rw (there, base4kb_lem pte (table_low pde), bit_and_mask 12 v)
                (ap (λ (n : ℕ). ok n) (omega (arith, table_low pde)))
        ])

  module _ (cr3 : ℕ) (table : cr3 < 2 ^ 32) (aligned : cr3 % 4 ≡ 0) where
    directory_low : directory_entry mem cr3 v < 2 ^ 31
    directory_low = low (cr3 + v / 2 ^ 22 * 4) (omega arith)

    directory_at : add64 cr3 (v / 2 ^ 22 * 4) ≡ cr3 + v / 2 ^ 22 * 4
    directory_at = omega arith

    through_directory :
        (pde : ℕ)
        → pde < 2 ^ 31
        → through_entry4kb pde v 2 (λ base. linear2physical_4kb 1 mem base v)
          ≡ linear2physical_4kb 1 mem (pde / 2 ^ 12 * 2 ^ 12) v
    unfolding through_entry4kb
    through_directory pde small = rw (base4kb_lem pde small)

    walk_4kb : linear2physical_legacy4kb mem cr3 v ≡ ok (address_of (translate mem cr3 false v))
    unfolding linear2physical_legacy4kb linear2physical_4kb get_entry4kb
    walk_4kb =
        let pde = directory_entry mem cr3 v in
        rw (pd_index v linear, directory_at, present4kb_lem pde)
          (elim (Bool-cases (pde % 2 == 0)) [
            | inl absent ↦ rw absent
            | inr there ↦
                rw (there) (through_directory pde directory_low ∙ walk_table pde directory_low)
          ])

    pub through_4mb :
        large (directory_entry mem cr3 v) ≡ false
        → linear2physical_legacy4mb mem cr3 v
          ≡ linear2physical_4kb 1 mem (directory_entry mem cr3 v / 2 ^ 12 * 2 ^ 12) v
    unfolding linear2physical_legacy4mb get_pt_entry4mb
    through_4mb small =
        let pde = directory_entry mem cr3 v in
        let bit7 : (pde / 128 % 2 == 0) ≡ true = ground arith in
        rw (directory_at, page_size_lem pde, bit7) (through_directory pde directory_low)

    large_4mb :
        large (directory_entry mem cr3 v) ≡ true
        → linear2physical_legacy4mb mem cr3 v
          ≡ ok (
              address_of (
                if present (directory_entry mem cr3 v)
                then some (directory_entry mem cr3 v / 2 ^ 22 * 2 ^ 22 + v % 2 ^ 22)
                else none))
    unfolding linear2physical_legacy4mb get_pt_entry4mb
    large_4mb big =
        let pde = directory_entry mem cr3 v in
        let bit7 : (pde / 128 % 2 == 0) ≡ false = ground arith in
        rw (directory_at, page_size_lem pde, bit7, present4mb_lem pde)
          (elim (Bool-cases (pde % 2 == 0)) [
            | inl absent ↦ rw absent
            | inr there ↦
                rw (there, base4mb_lem pde directory_low, bit_and_mask 22 v)
                  (ap (λ (n : ℕ). ok n) (omega (arith, directory_low)))
          ])

    walk_4mb :
        (present (directory_entry mem cr3 v) || large (directory_entry mem cr3 v)) ≡ true
        → linear2physical_legacy4mb mem cr3 v ≡ ok (address_of (translate mem cr3 true v))
    walk_4mb some_bit =
        let pde = directory_entry mem cr3 v in
        elim (Bool-cases (large pde)) [
          | inl big ↦ elim (Bool-cases (pde % 2 == 0)) [
            | inl absent ↦ rw absent (large_4mb big ∙ rw absent)
            | inr there ↦ rw (there, big) (large_4mb big ∙ rw there)
          ]
          | inr small ↦
              let there : present pde ≡ true = ground arith in
              rw (there, small) (through_4mb small ∙ walk_table pde directory_low)
        ]

    -- In protected mode with paging and without address extension, where the aligned words of memory,
    -- from which entries are read, are below 2^31, and for an aligned table in the 32-bit range,
    -- `linear_2_physical` returns the address to which 32-bit paging
    -- translates a 32-bit address, or -1 where it translates it to none; with page size extension,
    -- provided that the directory entry is present or large.
    pub linear_2_physical-translate :
        (cr0 cr4 : ℕ)
        → cr0 % 2 ≡ 1
        → cr0 / 2 ^ 31 % 2 ≡ 1
        → cr4 / 2 ^ 5 % 2 ≡ 0
        → (cr4 / 2 ^ 4 % 2 ≡ 1
            → (present (directory_entry mem cr3 v) || large (directory_entry mem cr3 v)) ≡ true)
        → linear_2_physical mem cr0 cr3 cr4 v
          ≡ ok (address_of (translate mem cr3 (cr4 / 2 ^ 4 % 2 == 1) v))
    unfolding linear_2_physical
    linear_2_physical-translate cr0 cr4 pe pg pae some_bit =
        let protected : (cr0 / 1 % 2 == 0) ≡ false = ground arith in
        let paging : (cr0 / 2 ^ 31 % 2 == 0) ≡ false = ground arith in
        let narrow : (cr4 / 2 ^ 5 % 2 == 0) ≡ true = ground arith in
        rw
          (
            flag_lem 0 cr0,
            protected,
            flag_lem 5 cr4,
            narrow,
            flag_lem 31 cr0,
            paging,
            flag_lem 4 cr4,
          )
          (elim (Bool-cases (cr4 / 2 ^ 4 % 2 == 0)) [
            | inl off ↦
                let no_pse : (cr4 / 2 ^ 4 % 2 == 1) ≡ false = ground arith in
                rw (off, no_pse) walk_4kb
            | inr on ↦
                let pse : (cr4 / 2 ^ 4 % 2 == 1) ≡ true = ground arith in
                rw (on, pse) (walk_4mb (some_bit (ground arith)))
          ])

    -- With page size extension, a directory entry that is neither present nor large is followed
    -- all the same: where the page table that it names has a present entry for the address,
    -- `linear_2_physical` returns an address, though 32-bit paging translates it to none.
    pub linear_2_physical-absent :
        (cr0 cr4 : ℕ)
        → cr0 % 2 ≡ 1
        → cr0 / 2 ^ 31 % 2 ≡ 1
        → cr4 / 2 ^ 5 % 2 ≡ 0
        → cr4 / 2 ^ 4 % 2 ≡ 1
        → present (directory_entry mem cr3 v) ≡ false
        → large (directory_entry mem cr3 v) ≡ false
        → present (table_entry mem (directory_entry mem cr3 v) v) ≡ true
        → (linear_2_physical mem cr0 cr3 cr4 v
            ≡ ok (table_entry mem (directory_entry mem cr3 v) v / 2 ^ 12 * 2 ^ 12 + v % 2 ^ 12))
          × (translate mem cr3 true v ≡ none)
    unfolding linear_2_physical
    linear_2_physical-absent cr0 cr4 pe pg pae pse no_pde small there =
        let pde = directory_entry mem cr3 v in
        let protected : (cr0 / 1 % 2 == 0) ≡ false = ground arith in
        let paging : (cr0 / 2 ^ 31 % 2 == 0) ≡ false = ground arith in
        let narrow : (cr4 / 2 ^ 5 % 2 == 0) ≡ true = ground arith in
        let on : (cr4 / 2 ^ 4 % 2 == 0) ≡ false = ground arith in
        let walked = rw there at (through_4mb small ∙ walk_table pde directory_low) in
        (
          rw
              (
                flag_lem 0 cr0,
                protected,
                flag_lem 5 cr4,
                narrow,
                flag_lem 31 cr0,
                paging,
                flag_lem 4 cr4,
                on,
              )
              walked,
          rw no_pde,
        )
