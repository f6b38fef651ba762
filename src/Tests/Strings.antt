-- ===== src/Tests/Strings.antt =====
-- kernel/string.c at concrete inputs.
use hv_sebek.Base.{ℕ, ◌≡◌, arith, Words, List, [], ◌∷◌}
use hv_sebek.Bytes.{memmove}
use hv_sebek.Bytes.Copy.{memmove_lem}
use hv_sebek.CString.Compare.{Text}

-- Byte `a` holds `a`.
abbrev ramp : Words
ramp a = a

memmove_lem_example : memmove 13 10 7 ramp 18 ≡ 15
memmove_lem_example = memmove_lem 13 10 7 ramp 18

-- "cat", "cart" and "at"
abbrev cat : List ℕ
cat = 99 ∷ 97 ∷ 116 ∷ []

abbrev cart : List ℕ
cart = 99 ∷ 97 ∷ 114 ∷ 116 ∷ []

abbrev at : List ℕ
at = 97 ∷ 116 ∷ []

cat-Text : Text cat
cat-Text = (omega arith, omega arith, (omega arith, omega arith, (omega arith, omega arith, tt)))

cart-Text : Text cart
cart-Text = (
  omega arith,
  omega arith,
  (omega arith, omega arith, (omega arith, omega arith, (omega arith, omega arith, tt))),
)

at-Text : Text at
at-Text = (omega arith, omega arith, (omega arith, omega arith, tt))
