-- ===== src/Tracking/Lookup.antt =====
-- What a search of a table of kernel/vm.c finds after a row has been added, or rows removed.
use hv_sebek.Base.{
  ℕ, zero, suc, ◌+◌, ◌-◌, ◌≡◌, ◌≢◌, refl, subst, ◌∙◌, arith, Bool, true, false, List, [], ◌∷◌, ◌++◌,
  ◌==◌, if◌then◌else◌, Option, none, some, Bool-cases, inl, inr,
}
use hv_sebek.Tracking.{Table, set_row, add_row, remove_from, find_from}
use hv_sebek.Tracking.Rows.{
  listed, rows_of, listed-same, removed, found, find_from-found, remove_from-Removed,
}

-- What a search finds with a row added: what it found before, or else the new row.
abbrev pub or_else {ℓ} : {A : Type ℓ} → Option A → Bool → A → Option A
or_else (some old) here new = some old
or_else none here new = if here then some new else none

module _ {ℓ} {A : Type ℓ} where
  listed-snoc :
      (n i : ℕ) (rows : ℕ → A) → listed rows i (n + 1) ≡ listed rows i n ++ rows (i + n) ∷ []
  listed-snoc zero i rows = let start : i + 0 ≡ i = omega arith in rw start
  listed-snoc (suc n) i rows =
      let more : suc n + 1 ≡ suc (n + 1) = omega arith in
      let far : i + suc n ≡ i + 1 + n = omega arith in rw (more, far, listed-snoc n (i + 1) rows)

  -- A row is added behind the others.
  pub rows_of-add_row : (t : Table A) (a : A) → rows_of (add_row t a) ≡ rows_of t ++ a ∷ []
  rows_of-add_row t a =
      let new : set_row t.row t.used a (0 + t.used) ≡ a = ground arith in
      let old = listed-same t.used 0 0 (set_row t.row t.used a) t.row (λ k h. ground arith) in
      listed-snoc t.used 0 (set_row t.row t.used a) ∙ rw (old, new)

  module _ (key : A → ℕ) where
    -- No row has the key.
    abbrev pub Absent : ℕ → List A → Type 0
    Absent id [] = Unit {0}
    Absent id (a ∷ l) = (key a ≢ id) × Absent id l

    -- No two rows have the same key.
    abbrev pub Unique : List A → Type 0
    Unique [] = Unit {0}
    Unique (a ∷ l) = Absent (key a) l × Unique l

    found-Absent : (id : ℕ) (l : List A) → Absent id l → found key id l ≡ none
    found-Absent id [] h = refl
    found-Absent id (a ∷ l) h =
        let other : (key a == id) ≡ false = ground (arith, h.0) in rw other (found-Absent id l h.1)

    removed-Absent : (id : ℕ) (l : List A) → Absent id l → removed key false id l ≡ l
    removed-Absent id [] h = refl
    removed-Absent id (a ∷ l) h =
        let other : (key a == id) ≡ false = ground (arith, h.0) in
        rw (other, removed-Absent id l h.1)

    removed-moved : (id : ℕ) (l : List A) → Absent id l → removed key true id l ≡ l
    removed-moved id [] h = refl
    removed-moved id (a ∷ l) h = rw (removed-Absent id l h.1)

    found-append :
        (id : ℕ) (l : List A) (a : A)
        → found key id (l ++ a ∷ []) ≡ or_else (found key id l) (key a == id) a
    found-append id [] a = refl
    found-append id (b ∷ l) a = elim (Bool-cases (key b == id)) [
      | inl hit ↦ rw hit
      | inr miss ↦ rw (miss, found-append id l a)
    ]

    pub found-removed_other :
        (id other : ℕ) (l : List A)
        → other ≢ id
        → Unique l
        → found key other (removed key false id l) ≡ found key other l
    found-removed_other id other [] ne u = refl
    found-removed_other id other (a ∷ l) ne u = elim (Bool-cases (key a == id)) [
      | inl hit ↦
          let e : key a ≡ id = ground arith in
          let gone = removed-moved id l (subst (λ (x : ℕ). Absent x l) e u.0) in
          let not_it : (key a == other) ≡ false = ground arith in rw (hit, gone, not_it)
      | inr miss ↦ rw (miss, found-removed_other id other l ne u.1)
    ]

    pub found-removed :
        (id : ℕ) (l : List A) → Unique l → found key id (removed key false id l) ≡ none
    found-removed id [] u = refl
    found-removed id (a ∷ l) u = elim (Bool-cases (key a == id)) [
      | inl hit ↦
          let e : key a ≡ id = ground arith in
          let absent = subst (λ (x : ℕ). Absent x l) e u.0 in
          rw (hit, removed-moved id l absent) (found-Absent id l absent)
      | inr miss ↦ rw (miss, miss) (found-removed id l u.1)
    ]

    -- The loops on a whole table.
    pub find-rows : (id : ℕ) (t : Table A) → find_from key t.used 0 id t ≡ found key id (rows_of t)
    find-rows id t = find_from-found key t.used 0 id t

    pub remove-rows :
        (id : ℕ) (t : Table A)
        → rows_of (remove_from key t.used 0 id t) ≡ removed key false id (rows_of t)
    remove-rows id t =
        let (low, before, after) =
          remove_from-Removed key t.used t.used 0 id t (omega arith) (omega arith) in
        let t' = remove_from key t.used 0 id t in
        let all : t'.used - 0 ≡ t'.used = omega arith in rw all at after

    pub find-add_row :
        (id : ℕ) (t : Table A) (a : A)
        → found key id (rows_of (add_row t a)) ≡ or_else (found key id (rows_of t)) (key a == id) a
    find-add_row id t a = rw (rows_of-add_row t a) (found-append id (rows_of t) a)
