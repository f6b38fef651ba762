-- ===== src/Intercept/Protect.antt =====
-- The protection of page directories in kernel/vm.c, entry by entry.
use hv_sebek.Base.{
  ℕ, zero, suc, ◌+◌, ◌-◌, ◌*◌, ◌%◌, ◌^◌, ◌≤◌, ◌<◌, ◌≡◌, ◌∙◌, arith, Bool, ltb, leb, ◌==◌, ◌&&◌,
  bit_or, if◌then◌else◌, Bool-cases, inl, inr, Words, update, add64,
}
use hv_sebek.Base.Bits.{bit}
use hv_sebek.Intercept.{
  clear32, pttef_rw_bit, protect_from, unprotect_from, vm_protect_all_non_pae_page,
  vm_unprotect_non_pae_page,
}
use hv_sebek.Intercept.Flags.{bit-set, bit-clear}

-- Whether an address is that of one of `rounds` entries from `index` on.
abbrev entry_in : ℕ → ℕ → ℕ → ℕ → Bool
entry_in rounds index cr3 a =
    leb (cr3 + index * 4) a && ltb a (cr3 + (index + rounds) * 4) && (a - cr3) % 4 == 0

protect_from_lem :
    (rounds index cr3 : ℕ) (mem : Words) (a : ℕ)
    → cr3 + (index + rounds) * 4 ≤ 2 ^ 64
    → protect_from rounds index cr3 mem a
      ≡ (if entry_in rounds index cr3 a then clear32 (mem a) pttef_rw_bit else mem a)
unfolding protect_from
protect_from_lem zero index cr3 mem a fits = ground arith
protect_from_lem (suc rounds) index cr3 mem a fits =
    let at : add64 cr3 (index * 4) ≡ cr3 + index * 4 = omega arith in
    let mem' = update mem (cr3 + index * 4) (clear32 (mem (cr3 + index * 4)) pttef_rw_bit) in
    rw at (ground (arith, protect_from_lem rounds (index + 1) cr3 mem' a (omega arith)))

unprotect_from_lem :
    (rounds index cr3 : ℕ) (mem : Words) (a : ℕ)
    → cr3 + (index + rounds) * 4 ≤ 2 ^ 64
    → unprotect_from rounds index cr3 mem a
      ≡ (if entry_in rounds index cr3 a then bit_or (mem a) pttef_rw_bit else mem a)
unfolding unprotect_from
unprotect_from_lem zero index cr3 mem a fits = ground arith
unprotect_from_lem (suc rounds) index cr3 mem a fits =
    let at : add64 cr3 (index * 4) ≡ cr3 + index * 4 = omega arith in
    let mem' = update mem (cr3 + index * 4) (bit_or (mem (cr3 + index * 4)) pttef_rw_bit) in
    rw at (ground (arith, unprotect_from_lem rounds (index + 1) cr3 mem' a (omega arith)))

-- Whether an address is that of an entry of the directory at `cr3`.
abbrev pub in_directory : ℕ → ℕ → Bool
in_directory cr3 a = leb cr3 a && ltb a (cr3 + 4096) && (a - cr3) % 4 == 0

module _ (cr3 : ℕ) (mem : Words) (a : ℕ) (fits : cr3 + 4096 ≤ 2 ^ 64) where
  protect_lem :
      vm_protect_all_non_pae_page cr3 mem a
      ≡ (if in_directory cr3 a then clear32 (mem a) pttef_rw_bit else mem a)
  unfolding vm_protect_all_non_pae_page
  protect_lem =
      let whole : cr3 + (0 + 1024) * 4 ≡ cr3 + 4096 = omega arith in
      let start : cr3 + 0 * 4 ≡ cr3 = omega arith in
      let h = protect_from_lem 1024 0 cr3 mem a fits in rw (whole, start) at h

  unprotect_lem :
      vm_unprotect_non_pae_page cr3 mem a
      ≡ (if in_directory cr3 a then bit_or (mem a) pttef_rw_bit else mem a)
  unfolding vm_unprotect_non_pae_page
  unprotect_lem =
      let start : cr3 + 0 * 4 ≡ cr3 = omega arith in
      let h = unprotect_from_lem 1024 0 cr3 mem a fits in rw (start) at h

module _ (cr3 : ℕ) (mem : Words) (a k : ℕ) (fits : cr3 + 4096 ≤ 2 ^ 64) (small : k < 32) where
  -- After the protection of a directory that does not wrap around, no entry of it is writable; of
  -- the low 32 bits of memory words, nothing else has changed.
  pub vm_protect_all_non_pae_page-bits :
      bit (vm_protect_all_non_pae_page cr3 mem a) k
      ≡ (if in_directory cr3 a && k == 1 then 0 else bit (mem a) k)
  vm_protect_all_non_pae_page-bits =
      rw (protect_lem cr3 mem a fits) (elim (Bool-cases (in_directory cr3 a)) [
        | inl inside ↦ rw inside (bit-clear 32 (mem a) 1 k (omega arith) small)
        | inr outside ↦ rw outside
      ])

  -- After the protection of a directory that does not wrap around has been taken back, every entry
  -- is writable, also one that was not before the directory was protected; nothing else has
  -- changed.
  pub vm_unprotect_non_pae_page-bits :
      bit (vm_unprotect_non_pae_page cr3 (vm_protect_all_non_pae_page cr3 mem) a) k
      ≡ (if in_directory cr3 a && k == 1 then 1 else bit (mem a) k)
  vm_unprotect_non_pae_page-bits =
      let mem' = vm_protect_all_non_pae_page cr3 mem in
      let before = vm_protect_all_non_pae_page-bits in
      rw (unprotect_lem cr3 mem' a fits) (elim (Bool-cases (in_directory cr3 a)) [
        | inl inside ↦
            let before' = rw inside at before in
            rw inside (bit-set (mem' a) 1 k ∙ ground (arith, before'))
        | inr outside ↦ rw outside (rw outside at before)
      ])
