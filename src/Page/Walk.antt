-- ===== src/Page/Walk.antt =====
-- `mmap_pml4` against `linear2physical_legacy2mb` in kernel/page.c: an address that has been mapped
-- is translated through the tables that were written.
use hv_sebek.Base.{
  ℕ, suc, ◌+◌, ◌-◌, ◌*◌, ◌/◌, ◌%◌, ◌^◌, ◌≤◌, ◌<◌, ◌≡◌, ◌≢◌, sym, ap, subst, ◌∙◌, arith, true, false,
  ◌==◌, Words, update, add64, sign_extend32,
}
use hv_sebek.Base.Run.{Run, ok, ◌>>=◌, >>=-eq-ok, ok-injective}
use hv_sebek.Page.{
  Host, entry2mb_is_present, term_entry, next_table, get_entry, ensure_table, mmap_pml4,
  linear2physical_2mb, linear2physical_legacy2mb,
}
use hv_sebek.Page.Entry.{
  IsIn, get_entry-IsIn, present-term_entry, page_2mb-term_entry, next_table-IsAligned,
}
use hv_sebek.Page.Tables.{Ensured, ensure_table-Ensured}

-- One level of the way down: the host after its entry has been filled, and the table below.
abbrev pub descend : ℕ → Host → ℕ → ℕ → Run (Host × ℕ)
descend level h base vaddr = get_entry base vaddr level >>= λ entry.
    (ensure_table h entry >>= λ h'. ok (h', next_table (h'.mem entry)))

record Descended (level : ℕ) (h : Host) (base vaddr : ℕ) (h' : Host) (table : ℕ) : Type 0 where
  entry : ℕ
  at : get_entry base vaddr level ≡ ok entry
  inside : IsIn base entry
  filled : ensure_table h entry ≡ ok h'
  leads : next_table (h'.mem entry) ≡ table
  ensured : Ensured h entry h'

descend-Descended :
    (level : ℕ) (h : Host) (base vaddr : ℕ) (h' : Host) (table : ℕ)
    → 1 < level
    → level < 5
    → base + 4096 ≤ 2 ^ 64
    → h.nalloc.max_page < 2 ^ 28
    → descend level h base vaddr ≡ ok (h', table)
    → Descended level h base vaddr h' table
descend-Descended level h base vaddr h' table lo hi fits small e =
    let (entry, at, inside) = get_entry-IsIn base vaddr level lo hi fits in
    let (g, filled, done) = >>=-eq-ok (ensure_table h entry) _ (rw at at e) in
    let same : (g, next_table (g.mem entry)) ≡ (h', table) = ok-injective done in
    let host : g ≡ h' = ap (λ (p : Host × ℕ). p.0) same in
    record {
      entry = entry;
      at = at;
      inside = inside;
      filled = rw host at filled;
      leads =
          ap (λ (g : Host). next_table (g.mem entry)) (sym host) ∙ ap (λ (p : Host × ℕ). p.1) same;
      ensured = ensure_table-Ensured h entry small h' (rw host at filled);
    }

-- Pages that differ share no word.
apart : (a b x : ℕ) → a % 4096 ≡ 0 → b % 4096 ≡ 0 → a ≢ b → IsIn a x → ¬ IsIn b x
apart a b x ha hb ne i j = omega arith

update_other : (m : Words) (i v j : ℕ) → j ≢ i → update m i v j ≡ m j
update_other m i v j ne = ground arith

words_differ : (a b x y : ℕ) → a % 4096 ≡ 0 → b % 4096 ≡ 0 → a ≢ b → IsIn a x → IsIn b y → x ≢ y
words_differ a b x y ha hb ne i j = λ same. apart a b x ha hb ne i (rw same j)

-- One level of the walk, above the page directory and at it.
walk_down :
    (level : ℕ) (mem : Words) (base vaddr entry : ℕ)
    → 1 < level
    → get_entry base vaddr (suc level) ≡ ok entry
    → entry2mb_is_present (mem entry) ≡ true
    → linear2physical_2mb (suc level) mem base vaddr
      ≡ linear2physical_2mb level mem (next_table (mem entry)) vaddr
unfolding linear2physical_2mb
walk_down level mem base vaddr entry above at present =
    let upper : (suc level == 2) ≡ false = ground arith in rw (at, present, upper)

walk_end :
    (mem : Words) (base vaddr entry w paddr is_user : ℕ)
    → get_entry base vaddr 2 ≡ ok entry
    → mem entry ≡ term_entry w paddr is_user
    → linear2physical_2mb 2 mem base vaddr
      ≡ ok (add64 (sign_extend32 (paddr / 2 ^ 21 % 2 ^ 31 * 2 ^ 21)) (vaddr % 2 ^ 21))
unfolding linear2physical_2mb
walk_end mem base vaddr entry w paddr is_user at e =
    rw (at, e, present-term_entry w paddr is_user) (page_2mb-term_entry w paddr is_user vaddr)

module _ (h : Host) (pml4 vaddr paddr is_user : ℕ) (h₁ h₂ : Host) (pdp pd : ℕ)
    (small : h.nalloc.max_page < 2 ^ 28) (aligned : pml4 % 4096 ≡ 0) (fits : pml4 + 4096 ≤ 2 ^ 64)
    (down₁ : descend 4 h pml4 vaddr ≡ ok (h₁, pdp))
    (down₂ : descend 3 h₁ pdp vaddr ≡ ok (h₂, pd)) where
  upper : Descended 4 h pml4 vaddr h₁ pdp
  upper = descend-Descended 4 h pml4 vaddr h₁ pdp (omega arith) (omega arith) fits small down₁

  pdp_aligned : (pdp % 4096 ≡ 0) × (pdp + 4096 ≤ 2 ^ 64)
  pdp_aligned =
      subst (λ (t : ℕ). (t % 4096 ≡ 0) × (t + 4096 ≤ 2 ^ 64)) upper.leads
        (next_table-IsAligned (h₁.mem upper.entry))

  middle : Descended 3 h₁ pdp vaddr h₂ pd
  middle =
      descend-Descended 3 h₁ pdp vaddr h₂ pd (omega arith) (omega arith) pdp_aligned.1
        (omega (arith, upper.ensured.max_page)) down₂

  pd_aligned : (pd % 4096 ≡ 0) × (pd + 4096 ≤ 2 ^ 64)
  pd_aligned =
      subst (λ (t : ℕ). (t % 4096 ≡ 0) × (t + 4096 ≤ 2 ^ 64)) middle.leads
        (next_table-IsAligned (h₂.mem middle.entry))

  lower : (entry : ℕ) × (get_entry pd vaddr 2 ≡ ok entry) × IsIn pd entry
  lower = get_entry-IsIn pd vaddr 2 (omega arith) (omega arith) pd_aligned.1

  -- The host after the entry of the page directory has been written.
  mapped : Host
  mapped = record h₂ { mem = update h₂.mem lower.0 (term_entry (h₂.mem lower.0) paddr is_user) }

  mmap_pml4-mapped : mmap_pml4 h pml4 vaddr paddr is_user ≡ ok mapped
  unfolding mmap_pml4 mapped
  mmap_pml4-mapped =
      rw (upper.at, upper.filled, upper.leads, middle.at, middle.filled, middle.leads, lower.1)

  module _ (ne₁ : pml4 ≢ pdp) (ne₂ : pml4 ≢ pd) (ne₃ : pdp ≢ pd) where
    mapped_middle : mapped.mem middle.entry ≡ h₂.mem middle.entry
    unfolding mapped
    mapped_middle = update_other h₂.mem lower.0 _ middle.entry (
        words_differ pdp pd middle.entry lower.0 pdp_aligned.0 pd_aligned.0 ne₃ middle.inside
          lower.2)

    mapped_upper : mapped.mem upper.entry ≡ h₁.mem upper.entry
    unfolding mapped
    mapped_upper =
        let out = apart pml4 pd upper.entry aligned pd_aligned.0 ne₂ upper.inside in
        update_other h₂.mem lower.0 _ upper.entry
          (words_differ pml4 pd upper.entry lower.0 aligned pd_aligned.0 ne₂ upper.inside lower.2)
        ∙ middle.ensured.same upper.entry
            (words_differ pml4 pdp upper.entry middle.entry aligned pdp_aligned.0 ne₁ upper.inside
              middle.inside)
            (rw middle.leads out)

    mapped_lower : mapped.mem lower.0 ≡ term_entry (h₂.mem lower.0) paddr is_user
    unfolding mapped
    mapped_lower = ground arith

    walked :
        linear2physical_2mb 4 mapped.mem pml4 vaddr
        ≡ ok (add64 (sign_extend32 (paddr / 2 ^ 21 % 2 ^ 31 * 2 ^ 21)) (vaddr % 2 ^ 21))
    walked =
        walk_down 3 mapped.mem pml4 vaddr upper.entry (omega arith) upper.at
          (ap entry2mb_is_present mapped_upper ∙ upper.ensured.present)
        ∙ ap (λ (t : ℕ). linear2physical_2mb 3 mapped.mem t vaddr)
            (ap next_table mapped_upper ∙ upper.leads)
        ∙ walk_down 2 mapped.mem pdp vaddr middle.entry (omega arith) middle.at
            (ap entry2mb_is_present mapped_middle ∙ middle.ensured.present)
        ∙ ap (λ (t : ℕ). linear2physical_2mb 2 mapped.mem t vaddr)
            (ap next_table mapped_middle ∙ middle.leads)
        ∙ walk_end mapped.mem pd vaddr lower.0 (h₂.mem lower.0) paddr is_user lower.1 mapped_lower

    -- Where the three tables on the way, filled in by the two upper levels, are different pages,
    -- `mmap_pml4` returns, and `linear2physical_legacy2mb` then takes the address to its offset in
    -- the 2-MB page of `paddr`, but with bit 31 of that page's address spread over the upper half.
    mmap_pml4-translates :
        0 < pml4
        → (h' : Host) × (mmap_pml4 h pml4 vaddr paddr is_user ≡ ok h')
          × (linear2physical_legacy2mb h'.mem pml4 vaddr
              ≡ ok (add64 (sign_extend32 (paddr / 2 ^ 21 % 2 ^ 31 * 2 ^ 21)) (vaddr % 2 ^ 21)))
    unfolding linear2physical_legacy2mb
    mmap_pml4-translates pos =
        let table : (pml4 == 0) ≡ false = ground arith in
        (mapped, mmap_pml4-mapped, rw table walked)

    -- Where the three tables on the way, filled in by the two upper levels, are different pages,
    -- the top table is a page other than page 0, new tables lie below 2^40 and `paddr` lies below
    -- 2 GB, `mmap_pml4` returns, and afterwards `linear2physical_legacy2mb` takes the address to
    -- its offset in the 2-MB page of `paddr`.
    pub mmap_pml4-below :
        0 < pml4
        → paddr < 2 ^ 31
        → (h' : Host) × (mmap_pml4 h pml4 vaddr paddr is_user ≡ ok h')
          × (linear2physical_legacy2mb h'.mem pml4 vaddr
              ≡ ok (paddr / 2 ^ 21 * 2 ^ 21 + vaddr % 2 ^ 21))
    mmap_pml4-below pos low =
        let (h', done, walk) = mmap_pml4-translates pos in
        (h', done, walk ∙ ap (λ (n : ℕ). ok n) (omega arith))

    -- Under the same conditions, but where `paddr` lies from 2 GB up to 4 GB, the same translation
    -- is off by 2^64 - 2^32: it is not an address of the page that was mapped.
    pub mmap_pml4-above :
        0 < pml4
        → 2 ^ 31 ≤ paddr
        → paddr < 2 ^ 32
        → (h' : Host) × (mmap_pml4 h pml4 vaddr paddr is_user ≡ ok h')
          × (linear2physical_legacy2mb h'.mem pml4 vaddr
              ≡ ok (paddr / 2 ^ 21 * 2 ^ 21 + vaddr % 2 ^ 21 + (2 ^ 64 - 2 ^ 32)))
    mmap_pml4-above pos lo hi =
        let (h', done, walk) = mmap_pml4-translates pos in
        (h', done, walk ∙ ap (λ (n : ℕ). ok n) (omega arith))
