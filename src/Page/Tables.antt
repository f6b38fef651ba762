-- ===== src/Page/Tables.antt =====
-- `ensure_table`: what the upper levels of `__mmap_2mb` in kernel/page.c do to memory.
use hv_sebek.Base.{
  ℕ, ◌+◌, ◌*◌, ◌^◌, ◌<◌, ◌≡◌, ◌≢◌, refl, ap, ◌∙◌, arith, true, false, ltb, leb, ◌&&◌, Words, update,
  shl64, Bool-cases, inl, inr, subst, sym,
}
use hv_sebek.Base.Run.{Run, ok, fatal, fault, out_of_fuel, ◌>>=◌, ok-injective}
use hv_sebek.Alloc.{NaiveAllocator, alloc_host_pages}
use hv_sebek.Alloc.Search.{alloc_pages-max_page}
use hv_sebek.Page.{
  Host, clear_page, pg_table_alloc, entry2mb_is_present, non_term_entry, next_table, ensure_table,
}
use hv_sebek.Page.Entry.{IsIn, present-non_term_entry, next_table-non_term_entry}

-- What one `ensure_table` has done: the entry leads on to a table, and beyond the entry and that
-- table memory is what it was.
pub record Ensured (h : Host) (entry : ℕ) (h' : Host) : Type 0 where
  pub present : entry2mb_is_present (h'.mem entry) ≡ true
  pub same : (x : ℕ) → x ≢ entry → ¬ IsIn (next_table (h'.mem entry)) x → h'.mem x ≡ h.mem x
  pub max_page : h'.nalloc.max_page ≡ h.nalloc.max_page

clear_page_outside : (mem : Words) (base x : ℕ) → ¬ IsIn base x → clear_page mem base x ≡ mem x
unfolding clear_page
clear_page_outside mem base x out = elim (Bool-cases (leb base x && ltb x (base + 4096))) [
  | inl inside ↦ absurd (out (ground arith))
  | inr outside ↦ rw outside
]

module _ (h : Host) (entry : ℕ) (small : h.nalloc.max_page < 2 ^ 28) where
  -- The memory in which page `pfn` is cleared and the entry leads to it.
  abbrev with_table : ℕ → Words
  with_table pfn =
      let mem = clear_page h.mem (pfn * 4096) in
      update mem entry (non_term_entry (mem entry) (pfn * 4096))

  with_table_entry :
      (pfn : ℕ)
      → with_table pfn entry ≡ non_term_entry (clear_page h.mem (pfn * 4096) entry) (pfn * 4096)
  with_table_entry pfn = ground arith

  with_table_other : (pfn x : ℕ) → x ≢ entry → with_table pfn x ≡ clear_page h.mem (pfn * 4096) x
  with_table_other pfn x ne = ground arith

  Ensured-new :
      (pfn : ℕ) (a' : NaiveAllocator)
      → alloc_host_pages 1 1 h.nalloc ≡ ok (pfn, a')
      → Ensured h entry (record { mem = with_table pfn; nalloc = a' })
  Ensured-new pfn a' e =
      let (fits, max_same) = alloc_pages-max_page h.nalloc pfn a' (omega arith) e in
      let old : ℕ = clear_page h.mem (pfn * 4096) entry in
      let leads : next_table (with_table pfn entry) ≡ pfn * 4096 =
        ap next_table (with_table_entry pfn) ∙ next_table-non_term_entry old pfn (omega arith) in
      record {
        present =
            ap entry2mb_is_present (with_table_entry pfn) ∙ present-non_term_entry old (pfn * 4096);
        same = λ x ne out.
            with_table_other pfn x ne ∙ clear_page_outside h.mem (pfn * 4096) x (rw leads at out);
        max_page = max_same;
      }

  -- What `ensure_table` makes of the allocator's answer.
  abbrev filled : Run (ℕ × NaiveAllocator) → Run Host
  filled r =
      (r >>= λ (pfn, a').
      ◌>>=◌ {B = Host}
        (ok (shl64 pfn 12, record { mem = clear_page h.mem (shl64 pfn 12); nalloc = a' }))
        λ (paddr, g).
          ok (record g { mem = update g.mem entry (non_term_entry (g.mem entry) paddr) }))

  ensure_table_new :
      (r : Run (ℕ × NaiveAllocator))
      → alloc_host_pages 1 1 h.nalloc ≡ r
      → entry2mb_is_present (h.mem entry) ≡ false
      → ensure_table h entry ≡ filled r
  unfolding ensure_table pg_table_alloc
  ensure_table_new (ok (pfn, a')) e new = rw new (rw (pg_table_alloc, e))
  ensure_table_new fatal e new = rw new (rw (pg_table_alloc, e))
  ensure_table_new fault e new = rw new (rw (pg_table_alloc, e))
  ensure_table_new out_of_fuel e new = rw new (rw (pg_table_alloc, e))

  filled_ok :
      (pfn : ℕ) (a' : NaiveAllocator)
      → pfn < 2 ^ 28
      → filled (ok (pfn, a')) ≡ ok (record { mem = with_table pfn; nalloc = a' })
  filled_ok pfn a' low = let e : shl64 pfn 12 ≡ pfn * 4096 = omega arith in rw e

  Ensured-filled :
      (r : Run (ℕ × NaiveAllocator))
      → alloc_host_pages 1 1 h.nalloc ≡ r
      → (h' : Host) → filled r ≡ ok h'
      → Ensured h entry h'
  Ensured-filled (ok (pfn, a')) e h' done =
      let (fits, _) = alloc_pages-max_page h.nalloc pfn a' (omega arith) e in
      subst (Ensured h entry) (ok-injective (sym (filled_ok pfn a' (omega arith)) ∙ done))
        (Ensured-new pfn a' e)
  Ensured-filled fatal e h' done = cc
  Ensured-filled fault e h' done = cc
  Ensured-filled out_of_fuel e h' done = cc

  -- `ensure_table` leaves memory alone but for the entry and the table that it leads to.
  pub ensure_table-Ensured : (h' : Host) → ensure_table h entry ≡ ok h' → Ensured h entry h'
  unfolding ensure_table
  ensure_table-Ensured h' e = elim (Bool-cases (entry2mb_is_present (h.mem entry))) [
    | inl old ↦
        subst (Ensured h entry) (ok-injective (rw old at e))
          (record { present = old; same = λ x ne out. refl; max_page = refl })
    | inr new ↦
        let r = alloc_host_pages 1 1 h.nalloc in
        Ensured-filled r refl h' (sym (ensure_table_new r refl new) ∙ e)
  ]
