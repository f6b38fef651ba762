-- ===== src/Printf/Hex.antt =====
-- The digits that `number` of kernel/printf.c computes.
use hv_sebek.Base.{
  ℕ, zero, suc, ◌+◌, ◌/◌, ◌%◌, ◌^◌, ◌<◌, ◌≡◌, refl, sym, ap, ◌∙◌, arith, true, ltb, ◌==◌,
  if◌then◌else◌, Bool-cases, inl, inr, List, [], ◌∷◌, ◌++◌,
}
use native.Mathlib.Nat.{pow-suc}
use hv_sebek.Base.Run.{ok}
use hv_sebek.Base.Bits.{bit_and_mask}
use hv_sebek.Printf.{digit, hex_digits}

abbrev pub hex_digit : ℕ → ℕ
hex_digit d = if ltb d 10 then 48 + d else 87 + d

-- A number in base 16, with `rounds` digits at most, the last digit at the end.
unfoldable pub hex_text : ℕ → ℕ → List ℕ
hex_text zero n = []
hex_text (suc rounds) n =
    let before = hex_text rounds (n / 16) in
    if n / 16 == 0 then hex_digit (n % 16) ∷ [] else before ++ hex_digit (n % 16) ∷ []

append_assoc : (x : List ℕ) (d : ℕ) (y : List ℕ) → (x ++ d ∷ []) ++ y ≡ x ++ d ∷ y
append_assoc [] d y = refl
append_assoc (c ∷ x) d y = rw (append_assoc x d y)

digit_lem : (n : ℕ) → digit n ≡ hex_digit (n % 16)
unfolding digit
digit_lem n = rw (bit_and_mask 4 n)

step_digits :
    (fuel n : ℕ) (tmp : List ℕ)
    → hex_digits (suc fuel) n tmp ≡ (
        if n / 16 == 0
        then ok (hex_digit (n % 16) ∷ tmp)
        else hex_digits fuel (n / 16) (hex_digit (n % 16) ∷ tmp))
unfolding hex_digits
step_digits fuel n tmp = rw (digit_lem n)

step_text :
    (rounds n : ℕ)
    → hex_text (suc rounds) n ≡ (
        if n / 16 == 0
        then hex_digit (n % 16) ∷ []
        else hex_text rounds (n / 16) ++ hex_digit (n % 16) ∷ [])
unfolding hex_text
step_text rounds n = refl

-- The digits come out in reading order, before what stood in `tmp`, for every number that has
-- at most as many digits as there are rounds.
pub hex_digits_lem :
    (rounds n : ℕ) (tmp : List ℕ)
    → n < 16 ^ suc rounds
    → hex_digits (suc rounds) n tmp ≡ ok (hex_text (suc rounds) n ++ tmp)
hex_digits_lem zero n tmp small =
    let end : (n / 16 == 0) ≡ true = ground arith in
    rw (step_digits zero n tmp, step_text zero n, end)
hex_digits_lem (suc rounds) n tmp small = elim (Bool-cases (n / 16 == 0)) [
  | inl end ↦ rw (step_digits (suc rounds) n tmp, step_text (suc rounds) n, end)
  | inr more ↦
      let tmp' = hex_digit (n % 16) ∷ tmp in
      let rest = hex_digits_lem rounds (n / 16) tmp' (omega (arith, pow-suc 16 (suc rounds))) in
      rw (step_digits (suc rounds) n tmp, step_text (suc rounds) n, more)
        (rest
          ∙ ap (λ (l : List ℕ). ok l)
              (sym (append_assoc (hex_text (suc rounds) (n / 16)) (hex_digit (n % 16)) tmp)))
]
