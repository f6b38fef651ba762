-- ===== src/Alloc/Search.antt =====
-- `alloc_pages` of kernel/alloc.c: first fit, and when it gives up.
use native.Mathlib.Decide.{dec_lt, ℕ_discrete}
use hv_sebek.Base.{
  ℕ, zero, suc, ◌+◌, ◌*◌, ◌^◌, ◌≤◌, ◌<◌, ◌≡◌, refl, arith, Bool, true, false, ltb, leb, ◌&&◌,
  if◌then◌else◌, add64, Bool-cases, inl, inr, subst,
}
use hv_sebek.Base.Run.{Run, ok, fatal, fault, out_of_fuel}
use hv_sebek.Alloc.{
  NaiveAllocator, map_alloc, is_free_contiguous_region, alloc_pages_from, alloc_pages,
  alloc_host_pages,
}
use hv_sebek.Alloc.Marks.{mark, mark-map_alloc}
use hv_sebek.Alloc.Visible.{visible, is_free_contiguous_region_iff}

lt_of_mul_lt : (k q n : ℕ) → k * n < q * n → k < q
lt_of_mul_lt k q n h = elim (dec_lt k q) [
  | yes lt ↦ lt
  | no ge ↦ let le : q * n ≤ k * n = grind arith in absurd (omega arith)
]

module _ (nr align : ℕ) (a : NaiveAllocator) where
  -- The candidates are the multiples of `align`; `free_at q` is the code's test at one.
  abbrev pub free_at : ℕ → Bool
  free_at q = is_free_contiguous_region a.alloc_bitmap (q * align) nr

  -- The first candidate that passes, with the allocator in which its pages are taken.
  pub record FirstFit (q i : ℕ) (a' : NaiveAllocator) : Type 0 where
    pub candidate : i ≡ q * align
    pub fits : i + nr < a.max_page
    pub free : free_at q ≡ true
    pub first : (j : ℕ) → j < q → free_at j ≡ false
    pub taken : a' ≡ record a { alloc_bitmap = map_alloc a.alloc_bitmap i nr }

  abbrev pub NoFit : Type 0
  NoFit = (q : ℕ) → q * align + nr < a.max_page → free_at q ≡ false

  abbrev pub Outcome : Run (ℕ × NaiveAllocator) → Type 0
  Outcome (ok (i, a')) = (q : ℕ) × FirstFit q i a'
  Outcome fatal = NoFit
  Outcome fault = ⊥
  Outcome out_of_fuel = ⊥

  module _ (pos : 0 < align) (small : a.max_page + align < 2 ^ 64) where
    -- The loop at candidate `q`, with none before it that passes.
    alloc_pages_from-Outcome :
        (fuel q i : ℕ)
        → i ≡ q * align
        → i + nr < 2 ^ 64
        → 0 < fuel
        → a.max_page < fuel + i
        → ((j : ℕ) → j < q → free_at j ≡ false)
        → Outcome (alloc_pages_from fuel nr align a i)
    unfolding alloc_pages_from
    alloc_pages_from-Outcome zero q i e wrap some_fuel enough before = elim some_fuel [ ]
    alloc_pages_from-Outcome (suc fuel) q i e wrap some_fuel enough before =
        let sum : add64 i nr ≡ i + nr = omega arith in
        rw sum (elim (Bool-cases (ltb (i + nr) a.max_page)) [
          | inl inside ↦
              rw inside (elim (Bool-cases (is_free_contiguous_region a.alloc_bitmap i nr)) [
                | inl free ↦ rw free (
                  q,
                  record {
                    candidate = e;
                    fits = ground arith;
                    free = rw (← e) free;
                    first = before;
                    taken = refl;
                  },
                )
                | inr busy ↦
                    rw (busy, step (ground arith))
                      (alloc_pages_from-Outcome fuel (suc q) (i + align) (grind arith)
                        (ground arith) (ground arith) (omega arith) (extend busy))
              ])
          | inr outside ↦ rw outside (λ k inside. before k (lt_of_mul_lt k q align (ground arith)))
        ])
      where
        step : i < a.max_page → add64 i align ≡ i + align
        step h = omega arith

        extend :
            is_free_contiguous_region a.alloc_bitmap i nr ≡ false
            → (j : ℕ) → j < suc q
            → free_at j ≡ false
        extend busy j h = elim (ℕ_discrete j q) [
          | yes same ↦ rw (same, ← e) busy
          | no other ↦ before j (omega arith)
        ]

    -- For a positive alignment, with numbers that fit 64 bits, `alloc_pages` always ends. Where it
    -- returns, the result is the first multiple of `pfn_align` at which the code finds a free
    -- region that fits, and that region is taken by `map_alloc`; it stops the machine only where
    -- there is no such multiple.
    pub alloc_pages-Outcome : nr < 2 ^ 64 → Outcome (alloc_pages nr align a)
    unfolding alloc_pages
    alloc_pages-Outcome h =
        alloc_pages_from-Outcome (a.max_page + 1) 0 0 (omega arith) (omega arith) (omega arith)
          (omega arith) (λ j lt. elim lt [ ])

    -- For a positive alignment, with numbers that fit 64 bits: a region that `alloc_pages` returns
    -- lies below `max_page` and held no mark in the lower half of a word; afterwards its pages are
    -- marked and the marks of all others are unchanged.
    pub alloc_pages-marks :
        nr < 2 ^ 64
        → (i : ℕ) (a' : NaiveAllocator) → alloc_pages nr align a ≡ ok (i, a')
        → (i + nr < a.max_page)
          × ((k : ℕ) → k < nr → visible a.alloc_bitmap (i + k) ≡ false)
          × ((p : ℕ)
              → mark a'.alloc_bitmap p
                ≡ (if leb i p && ltb p (i + nr) then 1 else mark a.alloc_bitmap p))
    alloc_pages-marks h i a' e =
        let (q, found) = subst Outcome e (alloc_pages-Outcome h) in
        let free = rw (← found.candidate) at found.free in
        (
          found.fits,
          (is_free_contiguous_region_iff a.alloc_bitmap i nr (omega (arith, found.fits))).0 free,
          λ p. rw (found.taken) (mark-map_alloc a.alloc_bitmap i nr p (omega (arith, found.fits))),
        )

-- One page at a time: the page that is returned lies below `max_page`, which stays as it is.
pub alloc_pages-max_page :
    (a : NaiveAllocator) (i : ℕ) (a' : NaiveAllocator)
    → a.max_page + 1 < 2 ^ 64
    → alloc_host_pages 1 1 a ≡ ok (i, a')
    → (i < a.max_page) × (a'.max_page ≡ a.max_page)
unfolding alloc_host_pages
alloc_pages-max_page a i a' small e =
    let (q, found) =
      subst (Outcome 1 1 a) e (alloc_pages-Outcome 1 1 a (omega arith) small (omega arith)) in
    (omega (arith, found.fits), ground (arith, found.taken))
