-- ===== src/Base/Bits/Step.antt =====
-- One binary digit of `|` and `&`, from the recursion that the native operations stand for.
use Prim.Native.Nat.{
  ℕ, zero, suc, ◌+◌, ◌-◌, ◌*◌, ◌/◌, ◌%◌, ◌≤◌, min, max, bit_and, bit_or, digits, bitwise,
  bit_and-bitwise, bit_or-bitwise,
}
use mathlib.Core.Path.{◌≡◌, refl, ◌∙◌}
use native.Mathlib.Nat.{le_refl}
use native.Mathlib.Omega.{arith}

module _ (ended : ℕ → ℕ) (join : ℕ → ℕ → ℕ) where
  abbrev run : ℕ → ℕ → ℕ → ℕ
  run fuel x y = digits ended join fuel x y

  -- A round more than the first operand needs changes nothing.
  one_more : (fuel x y : ℕ) → x ≤ fuel → run (suc fuel) x y ≡ run fuel x y
  one_more fuel zero y enough = at_end fuel
    where
      at_end : (fuel : ℕ) → run (suc fuel) zero y ≡ run fuel zero y
      at_end zero = refl
      at_end (suc fuel) = refl
  one_more zero (suc x) y enough = absurd (omega arith)
  one_more (suc fuel) (suc x) y enough = rw (one_more fuel (suc x / 2) (y / 2) (omega arith))

  some_more :
      (extra most least x y : ℕ) → most ≡ least + extra → x ≤ least → run most x y ≡ run least x y
  some_more zero most least x y e enough = let same : most ≡ least = omega arith in rw same
  some_more (suc extra) most least x y e enough =
      let next : most ≡ suc (least + extra) = omega arith in
      rw next (
        one_more (least + extra) x y (omega arith)
        ∙ some_more extra (least + extra) least x y refl enough)

  -- The lowest digit, and the rest by halves.
  split_digit :
      (x y : ℕ)
      → bitwise ended join (suc x) y
        ≡ bitwise ended join (suc x / 2) (y / 2) * 2 + join (suc x % 2) (y % 2)
  split_digit x y =
      let half = suc x / 2 in
      omega (arith, some_more (x - half) x half half (y / 2) (omega arith) (le_refl _))

pub split_or : (x y : ℕ) → bit_or x y ≡ bit_or (x / 2) (y / 2) * 2 + max (x % 2) (y % 2)
split_or zero y = simp bit_or-bitwise (omega arith)
split_or (suc x) y = simp bit_or-bitwise (split_digit (λ (n : ℕ). n) max x y)

pub split_and : (x y : ℕ) → bit_and x y ≡ bit_and (x / 2) (y / 2) * 2 + min (x % 2) (y % 2)
split_and zero y = simp bit_and-bitwise (omega arith)
split_and (suc x) y = simp bit_and-bitwise (split_digit (λ _. zero) min x y)
