-- ===== src/Screen/Cursor.antt =====
-- Where `putstr` of kernel/printf.c leaves the cursor, and what it may write to.
use hv_sebek.Base.{
  ℕ, zero, suc, ◌+◌, ◌-◌, ◌*◌, ◌%◌, ◌<◌, ◌≡◌, refl, ap, ◌∙◌, arith, Bool, true, false, ltb, leb,
  ◌==◌, ◌&&◌, ◌||◌, if◌then◌else◌, Bool-cases, inl, inr, List, [], ◌∷◌, Words, update,
}
use hv_sebek.Base.Run.{ok}
use hv_sebek.Bytes.{memmove}
use hv_sebek.Bytes.Copy.{memmove_lem, memset_lem}
use hv_sebek.CString.Compare.{Text, stored}
use hv_sebek.Screen.{Screen, clear_screen, blank_cells, scroll, next_line, put_cell, putstr}

pub record IsScreen (scr : Screen) : Type 0 where
  pub in_line : scr.orig_x < 80
  pub in_column : scr.orig_y < 25

-- The byte at `a` does not belong to the screen.
abbrev pub off_screen : ℕ → Bool
off_screen a = ltb a 0xb8000 || leb (0xb8000 + 4000) a

blank_cells_lem :
    (rounds i : ℕ) (mem : Words) (a : ℕ)
    → blank_cells rounds i mem a ≡ (
        if leb (0xb8000 + i) a && ltb a (0xb8000 + i + rounds * 2) && (a - (0xb8000 + i)) % 2 == 0
        then 32
        else mem a)
unfolding blank_cells
blank_cells_lem zero i mem a = ground arith
blank_cells_lem (suc rounds) i mem a =
    ground (arith, blank_cells_lem rounds (i + 2) (update mem (0xb8000 + i) 32) a)

-- Scrolling moves every line up by one, and fills the characters of the last line with blanks;
-- the attributes of the last line stay, and so does what is not on the screen.
pub scroll_lem :
    (mem : Words) (a : ℕ)
    → scroll mem a ≡ (
        if off_screen a
        then mem a
        else (if ltb a (0xb8000 + 3840) then mem (a + 160) else (if a % 2 == 0 then 32 else mem a)))
unfolding scroll
scroll_lem mem a =
    let up = memmove 0xb8000 0xb80a0 3840 mem in
    let moved_up = memmove_lem 0xb8000 0xb80a0 3840 mem a in
    let from : 0xb80a0 + (a - 0xb8000) ≡ (if ltb a 0xb8000 then 0xb80a0 else a + 160) =
      ground arith in
    let blanks = blank_cells_lem 80 3840 up a in ground (arith, blanks, moved_up, ap mem from)

-- What each character keeps.
record Kept (scr scr' : Screen) : Type 0 where
  cursor : IsScreen scr'
  others : (a : ℕ) → off_screen a ≡ true → scr'.mem a ≡ scr.mem a

next_line-Kept : (scr : Screen) → IsScreen scr → Kept scr (next_line scr)
unfolding next_line
next_line-Kept scr is = elim (Bool-cases (leb 25 (scr.orig_y + 1))) [
  | inl last ↦ rw last (record {
    cursor = record { in_line = omega arith; in_column = is.in_column };
    others = λ a off. scroll_lem scr.mem a ∙ rw off;
  })
  | inr more ↦ rw more (record {
    cursor = record { in_line = omega arith; in_column = ground arith };
    others = λ a off. refl;
  })
]

put_cell-Kept : (scr : Screen) (c : ℕ) → IsScreen scr → Kept scr (put_cell scr c)
unfolding put_cell
put_cell-Kept scr c is =
    let at = 0xb8000 + (scr.orig_x + 80 * scr.orig_y) * 2 in
    let written : Screen = record scr { mem = update scr.mem at c } in
    let written_is : IsScreen written = record { in_line = is.in_line; in_column = is.in_column } in
    let outside : (a : ℕ) → off_screen a ≡ true → update scr.mem at c a ≡ scr.mem a =
      λ a off. ground (arith, is.in_line, is.in_column) in
    elim (Bool-cases (c == 10)) [
      | inl newline ↦ rw newline (next_line-Kept scr is)
      | inr char ↦ elim (Bool-cases (leb 80 (scr.orig_x + 1))) [
        | inl full ↦
            let k = next_line-Kept written written_is in
            rw (char, full)
              (record { cursor = k.cursor; others = λ a off. k.others a off ∙ outside a off })
        | inr room ↦
            rw (char, room)
              (record {
                cursor = record { in_line = ground arith; in_column = is.in_column };
                others = outside;
              })
      ]
    ]

-- From a cursor on the screen, `putstr` of a text returns with the cursor on the screen, and has
-- written to no byte outside the 4000 bytes of the screen.
pub putstr-IsScreen :
    (scr : Screen) (s after : List ℕ)
    → IsScreen scr
    → Text s
    → (scr' : Screen) × (putstr scr (stored s after) ≡ ok scr')
      × IsScreen scr'
      × ((a : ℕ) → off_screen a ≡ true → scr'.mem a ≡ scr.mem a)
unfolding putstr
putstr-IsScreen scr [] after is text = (scr, refl, is, λ a off. refl)
putstr-IsScreen scr (c ∷ s) after is text =
    let some : (c == 0) ≡ false = ground (arith, text.0) in
    let k = put_cell-Kept scr c is in
    let (scr', done, is', others) = putstr-IsScreen (put_cell scr c) s after k.cursor text.2 in
    (scr', rw some done, is', λ a off. others a off ∙ k.others a off)

-- `clear_screen` puts the cursor first and clears the upper half of the screen only: from byte
-- 2000 on the screen shows what it did.
pub clear_screen-half :
    (scr : Screen) (a : ℕ)
    → IsScreen (clear_screen scr)
      × ((clear_screen scr).mem a
          ≡ (if leb 0xb8000 a && ltb a (0xb8000 + 2000) then 0 else scr.mem a))
unfolding clear_screen
clear_screen-half scr a = (
  record { in_line = omega arith; in_column = omega arith },
  ground (arith, memset_lem 2000 0xb8000 0 scr.mem a),
)
