-- ===== src/CString/Search.antt =====
-- `strstr` of kernel/string.c finds the first place of a text in another.
use hv_sebek.Base.{
  ℕ, zero, suc, ◌+◌, ◌≤◌, ◌<◌, ◌≡◌, refl, ap, arith, Bool, true, false, Option, none, some, List,
  [], ◌∷◌, ◌==◌, ◌&&◌, length, drop, Bool-cases, inl, inr,
}
use hv_sebek.Base.Run.{ok}
use hv_sebek.CString.{matches, strstr_from, strstr}
use hv_sebek.CString.Compare.{Text, stored}

-- Whether the text `t` begins `s`.
abbrev pub begins : List ℕ → List ℕ → Bool
begins [] s = true
begins (c ∷ t) [] = false
begins (c ∷ t) (b ∷ s) = b == c && begins t s

matches_lem :
    (s t s' t' : List ℕ) → Text s → Text t → matches (stored s s') (stored t t') ≡ ok (begins t s)
unfolding matches
matches_lem [] [] s' t' ts td = refl
matches_lem (b ∷ s) [] s' t' ts td = refl
matches_lem [] (c ∷ t) s' t' ts td = ground arith
matches_lem (b ∷ s) (c ∷ t) s' t' ts td = ground (arith, matches_lem s t s' t' ts.2 td.2)

-- The first index at which `t` stands in `s`, or none.
abbrev pub First : List ℕ → List ℕ → Option ℕ → Type 0
First t s none = (j : ℕ) → j ≤ length s → begins t (drop j s) ≡ false
First t s (some k) =
    (k ≤ length s) × (begins t (drop k s) ≡ true) × ((j : ℕ) → j < k → begins t (drop j s) ≡ false)

abbrev shift : ℕ → Option ℕ → Option ℕ
shift i none = none
shift i (some k) = some (i + k)

-- One byte further on.
First-cons-none :
    (t s : List ℕ) (b : ℕ) → begins t (b ∷ s) ≡ false → First t s none → First t (b ∷ s) none
First-cons-none t s b miss f zero h = miss
First-cons-none t s b miss f (suc j) h = f j (omega arith)

begins-before :
    (t s : List ℕ) (b k : ℕ)
    → begins t (b ∷ s) ≡ false
    → ((j : ℕ) → j < k → begins t (drop j s) ≡ false)
    → (j : ℕ) → j < suc k
    → begins t (drop j (b ∷ s)) ≡ false
begins-before t s b k miss f zero h = miss
begins-before t s b k miss f (suc j) h = f j (omega arith)

First-cons :
    (t s : List ℕ) (b : ℕ) (r : Option ℕ)
    → begins t (b ∷ s) ≡ false
    → First t s r
    → First t (b ∷ s) (shift 1 r)
First-cons t s b none miss f = First-cons-none t s b miss f
First-cons t s b (some k) miss f =
    let next : 1 + k ≡ suc k = omega arith in
    rw next (omega (arith, f.0), f.1, begins-before t s b k miss f.2)

nothing_begins : (c : ℕ) (t : List ℕ) (j : ℕ) → begins (c ∷ t) (drop j []) ≡ false
nothing_begins c t zero = refl
nothing_begins c t (suc j) = refl

none_before : (t s : List ℕ) (j : ℕ) → j < 0 → begins t (drop j s) ≡ false
none_before t s j h = absurd (omega arith)

shift-shift : (i : ℕ) (r : Option ℕ) → shift (i + 1) r ≡ shift i (shift 1 r)
shift-shift i none = refl
shift-shift i (some k) = ap some (omega arith)

shift-zero : (r : Option ℕ) → shift 0 r ≡ r
shift-zero none = refl
shift-zero (some k) = ap some (omega arith)

module _ (c : ℕ) (t t' : List ℕ) (td : Text (c ∷ t)) where
  strstr_from-First :
      (i : ℕ) (s s' : List ℕ)
      → Text s
      → (r : Option ℕ) × (strstr_from i (stored s s') (stored (c ∷ t) t') ≡ ok (shift i r))
        × First (c ∷ t) s r
  unfolding strstr_from
  strstr_from-First i [] s' ts = (none, refl, λ j h. nothing_begins c t j)
  strstr_from-First i (b ∷ s) s' ts =
      let some_b : (b == 0) ≡ false = ground arith in
      let m = matches_lem (b ∷ s) (c ∷ t) s' t' ts td in
      elim (Bool-cases (begins (c ∷ t) (b ∷ s))) [
        | inl here ↦ (
          some 0,
          rw (some_b, m, here) (ap ok (ap some (omega arith))),
          (omega arith, here, none_before (c ∷ t) (b ∷ s)),
        )
        | inr miss ↦
            let (r, e, f) = strstr_from-First (i + 1) s s' ts.2 in
            (
              shift 1 r,
              rw (some_b, m, miss, e) (ap ok (shift-shift i r)),
              First-cons (c ∷ t) s b r miss f,
            )
      ]

  -- `strstr` returns, without a fault, the first index at which a non-empty text stands in another,
  -- or none when it stands at no index.
  pub strstr_lem :
      (s s' : List ℕ)
      → Text s
      → (r : Option ℕ) × (strstr (stored s s') (stored (c ∷ t) t') ≡ ok r) × First (c ∷ t) s r
  unfolding strstr
  strstr_lem s s' ts =
      let some_c : (c == 0) ≡ false = ground arith in
      let (r, e, f) = strstr_from-First 0 s s' ts in (r, rw (some_c, e, shift-zero r) refl, f)
