-- ===== src/Tracking/Rows.antt =====
-- The loops over the tables of kernel/vm.c, as functions of the list of rows in use.
use hv_sebek.Base.{
  ℕ, zero, suc, ◌+◌, ◌-◌, ◌≤◌, ◌<◌, ◌≡◌, refl, ap, subst, ◌∙◌, arith, Bool, true, false, List, [],
  ◌∷◌, ltb, leb, ◌==◌, ◌&&◌, if◌then◌else◌, Option, none, some, Bool-cases, inl, inr,
}
use hv_sebek.Tracking.{Table, set_row, shift_rows, remove_from, find_from}

plus_zero : (i : ℕ) → i + 0 ≡ i
plus_zero i = omega arith

plus_one : (i k : ℕ) → i + 1 + k ≡ i + suc k
plus_one i k = omega arith

module _ {ℓ} {A : Type ℓ} where
  -- So many rows from row `i` on.
  abbrev pub listed : (ℕ → A) → ℕ → ℕ → List A
  listed rows i zero = []
  listed rows i (suc n) = rows i ∷ listed rows (i + 1) n

  abbrev pub rows_of : Table A → List A
  rows_of t = listed t.row 0 t.used

  pub shift_rows_lem :
      (rounds j : ℕ) (rows : ℕ → A) (k : ℕ)
      → shift_rows rounds j rows k
        ≡ (if leb j k && ltb k (j + rounds) then rows (k + 1) else rows k)
  unfolding shift_rows
  shift_rows_lem zero j rows k = ground arith
  shift_rows_lem (suc rounds) j rows k =
      ground (arith, shift_rows_lem rounds (j + 1) (set_row rows j (rows (j + 1))) k)

  pub listed-same :
      (n i j : ℕ) (r s : ℕ → A)
      → ((k : ℕ) → k < n → r (i + k) ≡ s (j + k))
      → listed r i n ≡ listed s j n
  listed-same zero i j r s same = refl
  listed-same (suc n) i j r s same =
      let at : r i ≡ s j =
        subst (λ (x : ℕ). r x ≡ s j) (plus_zero i)
          (subst (λ (x : ℕ). r (i + 0) ≡ s x) (plus_zero j) (same 0 (omega arith))) in
      let rest =
        listed-same n (i + 1) (j + 1) r s
          (λ k h. rw (plus_one i k, plus_one j k) (same (suc k) (omega arith))) in
      rw (at, rest)

  module _ (key : A → ℕ) where
    -- What the loop of a removal leaves of a list; the flag says that the row before has been
    -- removed, and then the next row is kept without a test.
    abbrev pub removed : Bool → ℕ → List A → List A
    removed moved id [] = []
    removed true id (a ∷ l) = a ∷ removed false id l
    removed false id (a ∷ l) =
        let gone = removed true id l in
        let kept = removed false id l in if key a == id then gone else a ∷ kept

    abbrev pub found : ℕ → List A → Option A
    found id [] = none
    found id (a ∷ l) = let rest = found id l in if key a == id then some a else rest

    pub find_from-found :
        (n i id : ℕ) (t : Table A) → find_from key n i id t ≡ found id (listed t.row i n)
    unfolding find_from
    find_from-found zero i id t = refl
    find_from-found (suc n) i id t = rw (find_from-found n (i + 1) id t)

    -- What a removal from row `i` on leaves.
    abbrev pub Removed : ℕ → ℕ → ℕ → Table A → Table A → Type ℓ
    Removed n i id t t' =
        (i ≤ t'.used)
        × ((k : ℕ) → k < i → t'.row k ≡ t.row k)
        × (listed t'.row i (t'.used - i) ≡ removed false id (listed t.row i n))

    remove_from-done :
        (rounds i id : ℕ) (t : Table A) → t.used ≤ i → remove_from key rounds i id t ≡ t
    unfolding remove_from
    remove_from-done zero i id t le = refl
    remove_from-done (suc rounds) i id t le =
        let out : ltb i t.used ≡ false = ground arith in rw out

    listed-cons :
        (i : ℕ) (t : Table A) (a : A) (l : List A)
        → i < t.used
        → t.row i ≡ a
        → listed t.row (i + 1) (t.used - (i + 1)) ≡ l
        → listed t.row i (t.used - i) ≡ a ∷ l
    listed-cons i t a l lt e f =
        let more : t.used - i ≡ suc (t.used - (i + 1)) = omega arith in rw (more, e, f)

    listed-nil : (i : ℕ) (t : Table A) → t.used ≡ i → listed t.row i (t.used - i) ≡ []
    listed-nil i t e = let none_left : t.used - i ≡ 0 = omega arith in rw none_left

    -- The table after one removal at row `i`.
    abbrev shifted : ℕ → Table A → Table A
    shifted i t = record { row = shift_rows (t.used - 1 - i) i t.row; used = t.used - 1 }

    shifted-listed :
        (n i : ℕ) (t : Table A)
        → t.used ≡ i + suc (suc n)
        → listed (shifted i t).row (i + 1) n ≡ listed t.row (i + 1 + 1) n
    shifted-listed n i t e = listed-same n (i + 1) (i + 1 + 1) (shifted i t).row t.row (λ k h.
        let inside : (leb i (i + 1 + k) && ltb (i + 1 + k) (i + (t.used - 1 - i))) ≡ true =
          ground arith in
        let next : i + 1 + k + 1 ≡ i + 1 + 1 + k = omega arith in
        shift_rows_lem (t.used - 1 - i) i t.row (i + 1 + k) ∙ rw (inside, next))

    shifted-before : (i k : ℕ) (t : Table A) → k < i → (shifted i t).row k ≡ t.row k
    shifted-before i k t h =
        let outside : (leb i k && ltb k (i + (t.used - 1 - i))) ≡ false = ground arith in
        shift_rows_lem (t.used - 1 - i) i t.row k ∙ rw outside

    shifted-here : (i : ℕ) (t : Table A) → i + 1 < t.used → (shifted i t).row i ≡ t.row (i + 1)
    shifted-here i t h =
        let inside : (leb i i && ltb i (i + (t.used - 1 - i))) ≡ true = ground arith in
        shift_rows_lem (t.used - 1 - i) i t.row i ∙ rw inside

    pub remove_from-Removed :
        (rounds n i id : ℕ) (t : Table A)
        → t.used ≡ i + n
        → n ≤ rounds
        → Removed n i id t (remove_from key rounds i id t)
    unfolding remove_from
    remove_from-Removed rounds zero i id t e le =
        rw (remove_from-done rounds i id t (omega arith))
          (omega arith, (λ k h. refl), listed-nil i t (omega arith))
    remove_from-Removed zero (suc n) i id t e le = absurd (omega arith)
    remove_from-Removed (suc rounds) (suc zero) i id t e le =
        let here : ltb i t.used ≡ true = ground arith in
        elim (Bool-cases (key (t.row i) == id)) [
          | inl hit ↦
              rw (here, hit, remove_from-done rounds (i + 1) id (shifted i t) (omega arith))
                (
                  omega arith,
                  (λ k h. shifted-before i k t h),
                  listed-nil i (shifted i t) (omega arith),
                )
          | inr miss ↦
              let (below, before, after) =
                remove_from-Removed rounds zero (i + 1) id t (omega arith) (omega arith) in
              let t' = remove_from key rounds (i + 1) id t in
              rw (here, miss)
                (
                  omega arith,
                  (λ k h. before k (omega arith)),
                  listed-cons i t' (t.row i) [] (omega arith) (before i (omega arith)) after,
                )
        ]
    remove_from-Removed (suc rounds) (suc (suc n)) i id t e le =
        let here : ltb i t.used ≡ true = ground arith in
        elim (Bool-cases (key (t.row i) == id)) [
          | inl hit ↦
              let (below, before, after) =
                remove_from-Removed rounds n (i + 1) id (shifted i t) (omega arith) (omega arith) in
              let t' = remove_from key rounds (i + 1) id (shifted i t) in
              rw (here, hit)
                (
                  omega arith,
                  (λ k h. before k (omega arith) ∙ shifted-before i k t h),
                  listed-cons i t' (t.row (i + 1)) _ (omega arith)
                      (before i (omega arith) ∙ shifted-here i t (omega arith))
                      (after ∙ ap (λ (l : List A). removed false id l) (shifted-listed n i t e)),
                )
          | inr miss ↦
              let (below, before, after) =
                remove_from-Removed rounds (suc n) (i + 1) id t (omega arith) (omega arith) in
              let t' = remove_from key rounds (i + 1) id t in
              rw (here, miss)
                (
                  omega arith,
                  (λ k h. before k (omega arith)),
                  listed-cons i t' (t.row i) _ (omega arith) (before i (omega arith)) after,
                )
        ]
