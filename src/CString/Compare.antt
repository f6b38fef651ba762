-- ===== src/CString/Compare.antt =====
-- `strlen`, `strcmp`, `strncmp` and `strncasecmp` of kernel/string.c on strings that end.
use hv_sebek.Base.{
  ℕ, zero, suc, ◌+◌, ◌<◌, ◌≡◌, ◌↔◌, inl, inr, refl, ap, ◌∙◌, arith, false, List, [], ◌∷◌, ◌++◌,
  ◌==◌, length, Bool-cases, take,
}
use hv_sebek.Base.Run.{Run, ok}
use hv_sebek.CString.{strlen_from, strlen, char_diff, strcmp, strncmp}

-- The characters of a string: bytes other than the one that ends it.
abbrev pub Text : List ℕ → Type 0
Text [] = Unit {0}
Text (c ∷ s) = (0 < c) × (c < 256) × Text s

-- The text `s` in memory, with what follows its end.
abbrev pub stored : List ℕ → List ℕ → List ℕ
stored s after = s ++ 0 ∷ after

strlen_from_lem :
    (n : ℕ) (s after : List ℕ) → Text s → strlen_from n (stored s after) ≡ ok (n + length s)
unfolding strlen_from
strlen_from_lem n [] after t = ground arith
strlen_from_lem n (c ∷ s) after t = ground (arith, strlen_from_lem (n + 1) s after t.2)

-- `strlen` returns the number of characters before the end.
pub strlen_lem : (s after : List ℕ) → Text s → strlen (stored s after) ≡ ok (length s)
unfolding strlen
strlen_lem s after t = strlen_from_lem 0 s after t ∙ ap (λ (n : ℕ). ok n) (omega arith)

-- Bytes have the difference 0 only where they are equal.
char_diff_lem : (c d : ℕ) → c < 256 → d < 256 → (char_diff c d == 0) ≡ (c == d)
unfolding char_diff
char_diff_lem c d hc hd = ground arith

abbrev pub Decides : Run ℕ → List ℕ → List ℕ → Type 0
Decides out s t = (r : ℕ) × (out ≡ ok r) × ((r ≡ 0) ↔ (s ≡ t))

-- The first bytes differ: the result is not 0, and the texts differ.
Decides-apart :
    (c d : ℕ) (s t : List ℕ)
    → c < 256
    → d < 256
    → (c == d) ≡ false
    → ((s ≡ t) → ⊥)
    → Decides (ok (char_diff c d)) s t
Decides-apart c d s t hc hd ne texts = (
  char_diff c d,
  refl,
  (λ e. absurd (ground (arith, char_diff_lem c d hc hd)), λ e. absurd (texts e)),
)

-- A byte that both texts begin with.
Decides-cons : (out : Run ℕ) (c : ℕ) (s t : List ℕ) → Decides out s t → Decides out (c ∷ s) (c ∷ t)
Decides-cons out c s t (r, e, iff) =
    (r, e, (λ z. ap (λ (l : List ℕ). c ∷ l) (iff.0 z), λ eq. iff.1 (cc)))

-- `strncmp` returns, and its result is 0 exactly when the two texts agree up to `count` bytes.
pub strncmp_lem :
    (s t s' t' : List ℕ) (count : ℕ)
    → Text s
    → Text t
    → (r : ℕ) × (strncmp (stored s s') (stored t t') count ≡ ok r)
      × ((r ≡ 0) ↔ (take count s ≡ take count t))
unfolding strncmp char_diff
strncmp_lem s t s' t' zero ts td = (0, refl, (λ e. refl, λ e. refl))
strncmp_lem [] [] s' t' (suc count) ts td = (0, refl, (λ e. refl, λ e. refl))
strncmp_lem [] (d ∷ t) s' t' (suc count) ts td =
    let ne : (0 == d) ≡ false = ground arith in
    rw (char_diff_lem 0 d (omega arith) td.1, ne)
      (Decides-apart 0 d [] (d ∷ take count t) (omega arith) td.1 ne (λ e. cc))
strncmp_lem (c ∷ s) [] s' t' (suc count) ts td =
    let ne : (c == 0) ≡ false = ground arith in
    rw (char_diff_lem c 0 ts.1 (omega arith), ne)
      (Decides-apart c 0 (c ∷ take count s) [] ts.1 (omega arith) ne (λ e. cc))
strncmp_lem (c ∷ s) (d ∷ t) s' t' (suc count) ts td = elim (Bool-cases (c == d)) [
  | inl same ↦
      let eq : d ≡ c = ground arith in
      let some_c : (c == 0) ≡ false = ground arith in
      let rest = strncmp_lem s t s' t' count ts.2 td.2 in
      let cs = Decides-cons _ c (take count s) (take count t) rest in
      rw (char_diff_lem c d ts.1 td.1, same, some_c, eq) cs
  | inr ne ↦
      rw (char_diff_lem c d ts.1 td.1, ne)
        (Decides-apart c d (c ∷ take count s) (d ∷ take count t) ts.1 td.1 ne
          (λ e. absurd (ground (arith, e))))
]

-- `strcmp` returns, and its result is 0 exactly when the two texts are equal.
pub strcmp_lem :
    (s t s' t' : List ℕ)
    → Text s
    → Text t
    → (r : ℕ) × (strcmp (stored s s') (stored t t') ≡ ok r) × ((r ≡ 0) ↔ (s ≡ t))
unfolding strcmp char_diff
strcmp_lem [] [] s' t' ts td = (0, refl, (λ e. refl, λ e. refl))
strcmp_lem [] (d ∷ t) s' t' ts td =
    let ne : (0 == d) ≡ false = ground arith in
    rw (char_diff_lem 0 d (omega arith) td.1, ne)
      (Decides-apart 0 d [] (d ∷ t) (omega arith) td.1 ne (λ e. cc))
strcmp_lem (c ∷ s) [] s' t' ts td =
    let ne : (c == 0) ≡ false = ground arith in
    rw (char_diff_lem c 0 ts.1 (omega arith), ne)
      (Decides-apart c 0 (c ∷ s) [] ts.1 (omega arith) ne (λ e. cc))
strcmp_lem (c ∷ s) (d ∷ t) s' t' ts td = elim (Bool-cases (c == d)) [
  | inl same ↦
      let eq : d ≡ c = ground arith in
      let some_c : (c == 0) ≡ false = ground arith in
      rw (char_diff_lem c d ts.1 td.1, same, some_c, eq)
        (Decides-cons _ c s t (strcmp_lem s t s' t' ts.2 td.2))
  | inr ne ↦
      rw (char_diff_lem c d ts.1 td.1, ne)
        (Decides-apart c d (c ∷ s) (d ∷ t) ts.1 td.1 ne (λ e. absurd (ground (arith, e))))
]

-- Any bytes, as they may stand where a string does not end.
abbrev pub Bytes : List ℕ → Type 0
Bytes [] = Unit {0}
Bytes (c ∷ s) = (c < 256) × Bytes s

-- `strncmp` of some bytes to as many characters.
pub strncmp-Bytes :
    (s t s' t' : List ℕ)
    → Bytes s
    → Text t
    → length s ≡ length t
    → Decides (strncmp (s ++ s') (t ++ t') (length t)) s t
unfolding strncmp
strncmp-Bytes [] [] s' t' bytes text e = (0, refl, (λ z. refl, λ z. refl))
strncmp-Bytes [] (d ∷ t) s' t' bytes text e = absurd (omega arith)
strncmp-Bytes (c ∷ s) [] s' t' bytes text e = absurd (omega arith)
strncmp-Bytes (c ∷ s) (d ∷ t) s' t' bytes text e = elim (Bool-cases (c == d)) [
  | inl same ↦
      let eq : d ≡ c = ground arith in
      let some_c : (c == 0) ≡ false = ground (arith, text.0) in
      let rest = strncmp-Bytes s t s' t' bytes.1 text.2 (omega arith) in
      rw (char_diff_lem c d bytes.0 text.1, same, some_c, eq) (Decides-cons _ c s t rest)
  | inr ne ↦
      rw (char_diff_lem c d bytes.0 text.1, ne)
        (Decides-apart c d (c ∷ s) (d ∷ t) bytes.0 text.1 ne (λ q. absurd (ground (arith, q))))
]
