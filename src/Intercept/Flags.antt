-- ===== src/Intercept/Flags.antt =====
-- Which bits `vm_enable_intercept` and `vm_disable_intercept` of kernel/vm.c change.
use hv_sebek.Base.{
  ℕ, zero, suc, ◌-◌, ◌/◌, ◌^◌, ◌<◌, ◌≡◌, refl, ◌∙◌, arith, Bool, true, false, not, ◌==◌, ◌&&◌, ◌||◌,
  bit_and, bit_or, if◌then◌else◌,
}
use native.Mathlib.Nat.{pow-suc, one-le-pow, pow-le-pow_right}
use hv_sebek.Base.Bits.{
  bit, bit-lt, bit-bit_or, bit-bit_and, bit_of_zero, bit-low_mask, bit_and-two_pow,
}
use hv_sebek.Intercept.{Guest, vm_enable_intercept, vm_disable_intercept}

bit-two_pow : (n k : ℕ) → bit (2 ^ n) k ≡ (if k == n then 1 else 0)
unfolding bit
bit-two_pow zero zero = refl
bit-two_pow zero (suc k) = bit_of_zero k ∙ ground arith
bit-two_pow (suc n) zero = ground (arith, pow-suc 2 n)
bit-two_pow (suc n) (suc k) =
    let half : 2 ^ suc n / 2 ≡ 2 ^ n = omega (arith, pow-suc 2 n) in
    rw (half, bit-two_pow n k) (ground arith)

-- All ones but one.
bit-all_but : (w n k : ℕ) → n < w → k < w → bit (2 ^ w - 1 - 2 ^ n) k ≡ (if k == n then 0 else 1)
unfolding bit
bit-all_but zero n k h l = absurd (omega arith)
bit-all_but (suc w) zero zero h l = ground (arith, pow-suc 2 w, one-le-pow w 2)
bit-all_but (suc w) zero (suc k) h l =
    let half : (2 ^ suc w - 1 - 2 ^ 0) / 2 ≡ 2 ^ w - 1 =
      omega (arith, pow-suc 2 w, one-le-pow w 2) in
    rw (half, bit-low_mask w k) (ground arith)
bit-all_but (suc w) (suc n) zero h l = ground (
  arith,
  one-le-pow n 2,
  pow-suc 2 w,
  pow-suc 2 n,
  pow-le-pow_right {n = 2} (omega arith) {i = suc n} {j = w} (omega arith),
)
bit-all_but (suc w) (suc n) (suc k) h l =
    let half : (2 ^ suc w - 1 - 2 ^ suc n) / 2 ≡ 2 ^ w - 1 - 2 ^ n =
      omega (arith, pow-suc 2 w, pow-suc 2 n, one-le-pow w 2) in
    rw (half, bit-all_but w n k (omega arith) (omega arith)) (ground arith)

-- `word |= 1 << n`, and `word &= ~(1 << n)` in a word of `w` bits.
pub bit-set : (word n k : ℕ) → bit (bit_or word (2 ^ n)) k ≡ (if k == n then 1 else bit word k)
bit-set word n k = ground (arith, bit-bit_or k word (2 ^ n), bit-two_pow n k, bit-lt word k)

pub bit-clear :
    (w word n k : ℕ)
    → n < w
    → k < w
    → bit (bit_and word (2 ^ w - 1 - 2 ^ n)) k ≡ (if k == n then 0 else bit word k)
bit-clear w word n k h l =
    ground (arith, bit-bit_and k word (2 ^ w - 1 - 2 ^ n), bit-all_but w n k h l, bit-lt word k)

-- Whether flag `n` is among the flags.
abbrev pub asked : ℕ → ℕ → Bool
asked flags n = bit flags n == 1

pub asked_lem : (flags n : ℕ) → not (bit_and flags (2 ^ n) == 0) ≡ asked flags n
asked_lem flags n = ground (arith, bit_and-two_pow n flags, bit-lt flags n, one-le-pow n 2)

bit-set_if :
    (on : Bool) (word n k : ℕ)
    → bit (if on then bit_or word (2 ^ n) else word) k ≡ (if k == n && on then 1 else bit word k)
bit-set_if true word n k = ground (arith, bit-set word n k)
bit-set_if false word n k = ground arith

bit-clear_if :
    (w : ℕ) (on : Bool) (word n k : ℕ)
    → n < w
    → k < w
    → bit (if on then bit_and word (2 ^ w - 1 - 2 ^ n) else word) k
      ≡ (if k == n && on then 0 else bit word k)
bit-clear_if w true word n k h l = ground (arith, bit-clear w word n k h l)
bit-clear_if w false word n k h l = ground arith

module _ (g : Guest) (flags k : ℕ) (small : k < 32) where
  -- `vm_enable_intercept` sets the bit for a page fault if unpacking is asked for and that for a
  -- debug exception if single stepping is, among the general interceptions that for INTn if
  -- software interrupts or system calls are asked for and that for IRET if it is, that for a write
  -- to CR3 if task switches are, and the trap flag if single stepping is; no other of the low 32
  -- bits of these words changes.
  pub vm_enable_intercept-bits :
      (bit (vm_enable_intercept g flags).exception_intercepts k ≡ (
        if k == 14 && asked flags 5 || k == 1 && asked flags 4
        then 1
        else bit g.exception_intercepts k))
      × (bit (vm_enable_intercept g flags).general1_intercepts k ≡ (
          if k == 21 && (asked flags 0 || asked flags 2) || k == 20 && asked flags 3
          then 1
          else bit g.general1_intercepts k))
      × (bit (vm_enable_intercept g flags).cr_intercepts k
          ≡ (if k == 19 && asked flags 1 then 1 else bit g.cr_intercepts k))
      × (bit (vm_enable_intercept g flags).rflags k
          ≡ (if k == 8 && asked flags 4 then 1 else bit g.rflags k))
  unfolding vm_enable_intercept
  vm_enable_intercept-bits =
      let unpack = asked_lem flags 5 in
      let step = asked_lem flags 4 in
      let swint = asked_lem flags 0 in
      let syscall = asked_lem flags 2 in
      let iret = asked_lem flags 3 in
      let switch = asked_lem flags 1 in
      rw (unpack, step, swint, syscall, iret, switch)
        (
          bit-set_if (asked flags 4) _ 1 k
              ∙ ground (arith, bit-set_if (asked flags 5) g.exception_intercepts 14 k),
          bit-set_if (asked flags 2) _ 21 k
              ∙ ground (
                arith,
                bit-set_if (asked flags 3)
                    (if asked flags 0
                      then bit_or g.general1_intercepts (2 ^ 21)
                      else g.general1_intercepts)
                    20 k,
                bit-set_if (asked flags 0) g.general1_intercepts 21 k,
              ),
          bit-set_if (asked flags 1) g.cr_intercepts 19 k,
          bit-set_if (asked flags 4) g.rflags 8 k,
        )

  -- `vm_disable_intercept` clears the bit for a page fault if unpacking is asked for and that for a
  -- debug exception if single stepping is, among the general interceptions that for INTn if
  -- software interrupts or system calls are asked for and that for IRET if it is, that for a write
  -- to CR3 if task switches are, and the trap flag if single stepping is; no other of the low 32
  -- bits of these words changes.
  pub vm_disable_intercept-bits :
      (bit (vm_disable_intercept g flags).exception_intercepts k ≡ (
        if k == 14 && asked flags 5 || k == 1 && asked flags 4
        then 0
        else bit g.exception_intercepts k))
      × (bit (vm_disable_intercept g flags).general1_intercepts k ≡ (
          if k == 21 && (asked flags 0 || asked flags 2) || k == 20 && asked flags 3
          then 0
          else bit g.general1_intercepts k))
      × (bit (vm_disable_intercept g flags).cr_intercepts k
          ≡ (if k == 19 && asked flags 1 then 0 else bit g.cr_intercepts k))
      × (bit (vm_disable_intercept g flags).rflags k
          ≡ (if k == 8 && asked flags 4 then 0 else bit g.rflags k))
  unfolding vm_disable_intercept
  vm_disable_intercept-bits =
      let unpack = asked_lem flags 5 in
      let step = asked_lem flags 4 in
      let swint = asked_lem flags 0 in
      let syscall = asked_lem flags 2 in
      let iret = asked_lem flags 3 in
      let switch = asked_lem flags 1 in
      rw (unpack, step, swint, syscall, iret, switch)
        (
          bit-clear_if 32 (asked flags 4) _ 1 k (omega arith) small
              ∙ ground (
                arith,
                bit-clear_if 32 (asked flags 5) g.exception_intercepts 14 k (omega arith) small,
              ),
          bit-clear_if 32 (asked flags 2) _ 21 k (omega arith) small
              ∙ ground (
                arith,
                bit-clear_if 32 (asked flags 3)
                    (if asked flags 0
                      then bit_and g.general1_intercepts (2 ^ 32 - 1 - 2 ^ 21)
                      else g.general1_intercepts)
                    20 k (omega arith) small,
                bit-clear_if 32 (asked flags 0) g.general1_intercepts 21 k (omega arith) small,
              ),
          bit-clear_if 32 (asked flags 1) g.cr_intercepts 19 k (omega arith) small,
          bit-clear_if 64 (asked flags 4) g.rflags 8 k (omega arith) (omega arith),
        )
