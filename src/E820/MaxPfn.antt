-- ===== src/E820/MaxPfn.antt =====
-- `get_max_pfn` of kernel/e820.c is the least number above every whole page of RAM.
use hv_sebek.Base.{ℕ, ◌+◌, ◌-◌, ◌*◌, ◌^◌, ◌≤◌, ◌<◌, ◌≡◌, ◌⊎◌, inl, inr, refl, arith, [], ◌∷◌}
use hv_sebek.E820.{E820Entry, E820Map, e820_ram, max_pfn_step, max_pfn_from, get_max_pfn}

-- The whole page `p` lies in the entry, and the entry is RAM.
pub record Covers (e : E820Entry) (p : ℕ) : Type 0 where
  pub is_ram : e.type ≡ e820_ram
  pub from_start : e.addr ≤ p * 4096
  pub to_end : (p + 1) * 4096 ≤ e.addr + e.size

abbrev pub RamPage : E820Map → ℕ → Type 0
RamPage [] p = ⊥
RamPage (e ∷ es) p = Covers e p ⊎ RamPage es p

-- No entry reaches the last page of the 64-bit range.
abbrev pub Ends : E820Map → Type 0
Ends [] = Unit {0}
Ends (e ∷ es) = (e.addr + e.size + 4096 ≤ 2 ^ 64) × Ends es

max_pfn_step-le : (n : ℕ) (e : E820Entry) → n ≤ max_pfn_step n e
unfolding max_pfn_step
max_pfn_step-le n e = ground arith

max_pfn_step-above :
    (n : ℕ) (e : E820Entry) (p : ℕ)
    → e.addr + e.size + 4096 ≤ 2 ^ 64
    → Covers e p
    → p < max_pfn_step n e
unfolding max_pfn_step
max_pfn_step-above n e p ends c = ground arith

max_pfn_step-reached :
    (n : ℕ) (e : E820Entry)
    → e.addr + e.size + 4096 ≤ 2 ^ 64
    → (max_pfn_step n e ≡ n) ⊎ Covers e (max_pfn_step n e - 1)
unfolding max_pfn_step
max_pfn_step-reached n e ends = ground arith

max_pfn_from-le : (n : ℕ) (es : E820Map) → n ≤ max_pfn_from n es
unfolding max_pfn_from
max_pfn_from-le n [] = omega arith
max_pfn_from-le n (e ∷ es) =
    omega (arith, max_pfn_step-le n e, max_pfn_from-le (max_pfn_step n e) es)

max_pfn_from-above : (n : ℕ) (es : E820Map) (p : ℕ) → Ends es → RamPage es p → p < max_pfn_from n es
unfolding max_pfn_from
max_pfn_from-above n [] p ends h = absurd h
max_pfn_from-above n (e ∷ es) p ends (inl c) =
    omega (arith, max_pfn_step-above n e p ends.0 c, max_pfn_from-le (max_pfn_step n e) es)
max_pfn_from-above n (e ∷ es) p ends (inr h) = max_pfn_from-above (max_pfn_step n e) es p ends.1 h

max_pfn_from-reached :
    (n : ℕ) (es : E820Map) → Ends es → (max_pfn_from n es ≡ n) ⊎ RamPage es (max_pfn_from n es - 1)
unfolding max_pfn_from
max_pfn_from-reached n [] ends = inl refl
max_pfn_from-reached n (e ∷ es) ends = elim (max_pfn_from-reached (max_pfn_step n e) es ends.1) [
  | inl same ↦ elim (max_pfn_step-reached n e ends.0) [
    | inl still ↦ inl (omega arith)
    | inr c ↦ inr (inl (rw same c))
  ]
  | inr h ↦ inr (inr h)
]

-- Where no entry reaches the last page of the 64-bit range, every whole page of RAM has a number
-- below `get_max_pfn`, and if that is not 0, the page just below it is such a page.
pub get_max_pfn_lem :
    (e820 : E820Map)
    → Ends e820
    → ((p : ℕ) → RamPage e820 p → p < get_max_pfn e820)
      × ((get_max_pfn e820 ≡ 0) ⊎ RamPage e820 (get_max_pfn e820 - 1))
unfolding get_max_pfn
get_max_pfn_lem e820 ends =
    (λ p h. max_pfn_from-above 0 e820 p ends h, max_pfn_from-reached 0 e820 ends)
