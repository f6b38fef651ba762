-- ===== src/Base/Bits.antt =====
-- Single bits of a word, and how `&`, `|` and the masks of the source act on them.
mod Step
use Step.{split_or, split_and}
use Prim.Native.Nat.{
  ℕ, zero, suc, ◌+◌, ◌-◌, ◌*◌, ◌/◌, ◌%◌, ◌^◌, ◌≤◌, ◌<◌, min, max, bit_and, bit_or,
}
use mathlib.Core.Path.{◌≡◌, refl, ap, ◌∙◌}
use mathlib.Core.Bool.{Bool, true, false, ◌&&◌}
use native.Mathlib.Nat.{pow-suc, one-le-pow, pow-le-pow_right, mod-eq_of_lt, div-div-eq-div-mul}
use native.Mathlib.Omega.{arith}
use hv_sebek.Base.Tests.{ltb, leb, ◌==◌, if◌then◌else◌}

-- Bit `k` of `w`, as 0 or 1.
unfoldable pub bit : ℕ → ℕ → ℕ
bit w zero = w % 2
bit w (suc k) = bit (w / 2) k

pub bit-lt : (w k : ℕ) → bit w k < 2
unfolding bit
bit-lt w zero = omega arith
bit-lt w (suc k) = bit-lt (w / 2) k

pub bit-bit_or : (k a b : ℕ) → bit (bit_or a b) k ≡ max (bit a k) (bit b k)
unfolding bit
bit-bit_or zero a b = omega (arith, split_or a b)
bit-bit_or (suc k) a b =
    let e : bit_or a b / 2 ≡ bit_or (a / 2) (b / 2) = omega (arith, split_or a b) in
    rw e (bit-bit_or k (a / 2) (b / 2))

pub bit-bit_and : (k a b : ℕ) → bit (bit_and a b) k ≡ min (bit a k) (bit b k)
unfolding bit
bit-bit_and zero a b = omega (arith, split_and a b)
bit-bit_and (suc k) a b =
    let e : bit_and a b / 2 ≡ bit_and (a / 2) (b / 2) = omega (arith, split_and a b) in
    rw e (bit-bit_and k (a / 2) (b / 2))

-- `a & 0` by strong induction, over a bound on `a`.
zero_mask_upto : (top x : ℕ) → x ≤ top → bit_and x 0 ≡ 0
zero_mask_upto zero zero le = refl
zero_mask_upto zero (suc x) le = elim le [ ]
zero_mask_upto (suc top) zero le = refl
zero_mask_upto (suc top) (suc x) le =
    omega (arith, zero_mask_upto top (suc x / 2) (omega arith), split_and (suc x) 0)

bit_and-zero : (x : ℕ) → bit_and x 0 ≡ 0
bit_and-zero x = zero_mask_upto x x (omega arith)

pub bit_of_zero : (k : ℕ) → bit 0 k ≡ 0
unfolding bit
bit_of_zero zero = refl
bit_of_zero (suc k) = bit_of_zero k

-- `2 ^ n - 1` has ones exactly below `n`.
pub bit-low_mask : (n k : ℕ) → bit (2 ^ n - 1) k ≡ (if ltb k n then 1 else 0)
unfolding bit
bit-low_mask zero k = ground (arith, bit_of_zero k)
bit-low_mask (suc n) zero = ground (arith, pow-suc 2 n, one-le-pow n 2)
bit-low_mask (suc n) (suc k) =
    let e : (2 ^ suc n - 1) / 2 ≡ 2 ^ n - 1 = omega (arith, pow-suc 2 n, one-le-pow n 2) in
    rw (e, bit-low_mask n k) (ground arith)

-- `2 ^ w - 2 ^ n` has ones exactly from `n` up to `w`.
pub bit-high_mask :
    (w n k : ℕ) → n ≤ w → bit (2 ^ w - 2 ^ n) k ≡ (if leb n k && ltb k w then 1 else 0)
unfolding bit
bit-high_mask w zero k h = bit-low_mask w k ∙ ground arith
bit-high_mask zero (suc n) k h = elim h [ ]
bit-high_mask (suc w) (suc n) zero h = ground (arith, pow-suc 2 w, pow-suc 2 n)
bit-high_mask (suc w) (suc n) (suc k) h =
    let e : (2 ^ suc w - 2 ^ suc n) / 2 ≡ 2 ^ w - 2 ^ n = omega (arith, pow-suc 2 w, pow-suc 2 n) in
    rw (e, bit-high_mask w n k (omega arith)) (ground arith)

bit_and_fields : (k q r : ℕ) → r < 2 ^ k → bit_and (q * 2 ^ k + r) (2 ^ k - 1) ≡ r
bit_and_fields zero q r h = rw bit_and-zero (omega arith)
bit_and_fields (suc k) q r h = ground (
  arith,
  split_and (q * 2 ^ suc k + r) (2 ^ suc k - 1),
  ap (λ (t : ℕ). q * t) (pow-suc 2 k),
  pow-suc 2 k,
  one-le-pow k 2,
  bit_and_fields k q (r / 2) (omega (arith, pow-suc 2 k)),
)

-- `a & (2 ^ k - 1)` is a remainder.
pub bit_and_mask : (k a : ℕ) → bit_and a (2 ^ k - 1) ≡ a % 2 ^ k
bit_and_mask k a = ground (arith, one-le-pow k 2, bit_and_fields k (a / 2 ^ k) (a % 2 ^ k))

-- `a & (1 << k)` is bit `k` in its place.
pub bit_and-two_pow : (k a : ℕ) → bit_and a (2 ^ k) ≡ bit a k * 2 ^ k
unfolding bit
bit_and-two_pow zero a = omega (arith, split_and a 1, bit_and-zero (a / 2))
bit_and-two_pow (suc k) a =
    let e : 2 ^ suc k / 2 ≡ 2 ^ k = omega (arith, pow-suc 2 k) in
    omega (
      arith,
      split_and a (2 ^ suc k),
      ap (λ (t : ℕ). bit_and (a / 2) t) e,
      bit_and-two_pow k (a / 2),
      ap (λ (t : ℕ). bit (a / 2) k * t) (pow-suc 2 k),
      pow-suc 2 k,
    )

bit_or-zero_below : (n a : ℕ) → a ≤ n → bit_or a 0 ≡ a
bit_or-zero_below n zero h = refl
bit_or-zero_below zero (suc a) h = elim h [ ]
bit_or-zero_below (suc n) (suc a) h =
    omega (arith, split_or (suc a) 0, bit_or-zero_below n (suc a / 2) (omega arith))

-- `(q << k) | r` is a sum where `r` fits `k` bits.
pub bit_or_fields : (k q r : ℕ) → r < 2 ^ k → bit_or (q * 2 ^ k) r ≡ q * 2 ^ k + r
bit_or_fields zero q r h =
    let e : r ≡ 0 = omega arith in
    rw e (ground (arith, bit_or-zero_below (q * 1) (q * 1) (omega arith)))
bit_or_fields (suc k) q r h = ground (
  arith,
  split_or (q * 2 ^ suc k) r,
  ap (λ (t : ℕ). q * t) (pow-suc 2 k),
  bit_or_fields k q (r / 2) (omega (arith, pow-suc 2 k)),
)

-- `a & -(1 << n)` at a width `w` clears the low `n` bits.
pub bit_and-high_mask :
    (w n a : ℕ) → n ≤ w → a < 2 ^ w → bit_and a (2 ^ w - 2 ^ n) ≡ a / 2 ^ n * 2 ^ n
bit_and-high_mask w zero a h fits = ground (arith, bit_and_mask w a, mod-eq_of_lt fits)
bit_and-high_mask zero (suc n) a h fits = elim h [ ]
bit_and-high_mask (suc w) (suc n) a h fits =
    let twice : 2 * 2 ^ n ≡ 2 ^ suc n = omega (arith, pow-suc 2 n) in
    let quotient : a / 2 / 2 ^ n ≡ a / 2 ^ suc n =
      div-div-eq-div-mul a 2 (2 ^ n) ∙ ap (λ (t : ℕ). a / t) twice in
    omega (
      arith,
      split_and a (2 ^ suc w - 2 ^ suc n),
      pow-suc 2 w,
      pow-suc 2 n,
      pow-le-pow_right {n = 2} (omega arith) h,
      ap (λ (t : ℕ). bit_and (a / 2) t) (halves (omega arith)),
      bit_and-high_mask w n (a / 2) (omega arith) (omega (arith, pow-suc 2 w)),
      ap (λ (t : ℕ). t * 2 ^ n) quotient,
      ap (λ (t : ℕ). a / 2 ^ suc n * t) (pow-suc 2 n),
    )
  where
    halves : n ≤ w → (2 ^ suc w - 2 ^ suc n) / 2 ≡ 2 ^ w - 2 ^ n
    halves le = omega (arith, pow-suc 2 w, pow-suc 2 n)

-- A bit by division.
pub bit_lem : (k w : ℕ) → bit w k ≡ w / 2 ^ k % 2
unfolding bit
bit_lem zero w = omega arith
bit_lem (suc k) w =
    let twice : 2 * 2 ^ k ≡ 2 ^ suc k = omega (arith, pow-suc 2 k) in
    bit_lem k (w / 2)
    ∙ ap (λ (t : ℕ). t % 2) (div-div-eq-div-mul w 2 (2 ^ k) ∙ ap (λ (t : ℕ). w / t) twice)

-- The test of a flag in C: `w & (1 << k)` is not 0.
pub flag_lem : (k w : ℕ) → (bit_and w (2 ^ k) == 0) ≡ (w / 2 ^ k % 2 == 0)
flag_lem k w = ground (arith, bit_and-two_pow k w, bit_lem k w, one-le-pow k 2, bit-lt w k)
