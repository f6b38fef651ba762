-- ===== src/Bytes/Copy.antt =====
-- `memcpy`, `memmove` and `memset` of kernel/string.c against what they are for.
use hv_sebek.Base.{
  ℕ, zero, suc, ◌+◌, ◌-◌, ◌*◌, ◌/◌, ◌%◌, ◌≤◌, ◌≡◌, ◌⊎◌, inl, inr, ap, ◌∙◌, arith, ◌&&◌, bit_and,
  ltb, leb, ◌==◌, if◌then◌else◌, Words, update, Bool-cases,
}
use hv_sebek.Base.Bits.{flag_lem}
use hv_sebek.Bytes.{copy_unit, copy_longs, memcpy, copy_down, memmove, memset}

-- The memory `mem` in which the `n` bytes at `from` have been moved to `to`.
abbrev pub moved : ℕ → ℕ → ℕ → Words → Words
moved to from n mem a = if leb to a && ltb a (to + n) then mem (from + (a - to)) else mem a

-- Forward copying is right where the bytes still to be read are never written before.
abbrev pub Forward : ℕ → ℕ → ℕ → Type 0
Forward to from n = (to ≤ from) ⊎ (from + n ≤ to)

module _ (mem : Words) (to from n : ℕ) (way : Forward to from n) where
  -- A unit behind `j` bytes that are in place.
  copy_unit-moved :
      (j width : ℕ) (m : Words)
      → j + width ≤ n
      → ((a : ℕ) → m a ≡ moved to from j mem a)
      → (a : ℕ) → copy_unit width (to + j) (from + j) m a ≡ moved to from (j + width) mem a
  unfolding copy_unit
  copy_unit-moved j width m h before a =
      ground (arith, before a, before (from + j + (a - (to + j))))

  copy_longs-moved :
      (rounds j : ℕ) (m : Words)
      → j + rounds * 4 ≤ n
      → ((a : ℕ) → m a ≡ moved to from j mem a)
      → (a : ℕ) → copy_longs rounds (to + j) (from + j) m a ≡ moved to from (j + rounds * 4) mem a
  unfolding copy_longs
  copy_longs-moved zero j m h before a = ground (arith, before a)
  copy_longs-moved (suc rounds) j m h before a =
      let next : to + j + 4 ≡ to + (j + 4) = omega arith in
      let next' : from + j + 4 ≡ from + (j + 4) = omega arith in
      let total : j + suc rounds * 4 ≡ j + 4 + rounds * 4 = omega arith in
      rw (total, next, next')
        (copy_longs-moved rounds (j + 4) (copy_unit 4 (to + j) (from + j) m) (omega arith)
          (copy_unit-moved j 4 m (omega arith) before) a)

  all_longs : (a : ℕ) → copy_longs (n / 4) to from mem a ≡ moved to from (n / 4 * 4) mem a
  all_longs a =
      let start : to + 0 ≡ to = omega arith in
      let start' : from + 0 ≡ from = omega arith in
      let none : 0 + n / 4 * 4 ≡ n / 4 * 4 = omega arith in
      let h = copy_longs-moved (n / 4) 0 mem (omega arith) (λ b. ground arith) a in
      rw (start, start', none) at h

  -- Where no byte is written before it is read, `memcpy` moves the bytes and changes no other.
  pub memcpy_lem : (a : ℕ) → memcpy to from n mem a ≡ moved to from n mem a
  unfolding memcpy
  memcpy_lem a =
      let longs : ℕ = n / 4 * 4 in
      let word : ℕ = if bit_and n 2 == 0 then 0 else 2 in
      let byte : ℕ = if bit_and n 1 == 0 then 0 else 1 in
      let parts : (word ≡ n % 4 / 2 * 2) × (byte ≡ n % 2) =
        ground (arith, flag_lem 1 n, flag_lem 0 n) in
      let whole : longs + word + byte ≡ n = omega arith in
      let mem₁ = copy_longs (n / 4) to from mem in
      let mem₂ = copy_unit word (to + longs) (from + longs) mem₁ in
      let at_to : to + longs + word ≡ to + (longs + word) = omega arith in
      let at_from : from + longs + word ≡ from + (longs + word) = omega arith in
      rw (at_to, at_from)
        (copy_unit-moved (longs + word) byte mem₂ (omega arith)
            (copy_unit-moved longs word mem₁ (omega arith) all_longs) a
          ∙ ap (λ (k : ℕ). moved to from k mem a) whole)

copy_down_lem :
    (count dest src : ℕ) (mem : Words) (a : ℕ)
    → src ≤ dest
    → copy_down count dest src mem a ≡ moved dest src count mem a
unfolding copy_down
copy_down_lem zero dest src mem a h = ground arith
copy_down_lem (suc count) dest src mem a h =
    ground (arith, copy_down_lem count dest src (update mem (dest + count) (mem (src + count))) a)

-- `memmove` moves the bytes and changes no other, however the two regions overlap.
pub memmove_lem :
    (dest src count : ℕ) (mem : Words) (a : ℕ)
    → memmove dest src count mem a ≡ moved dest src count mem a
unfolding memmove
memmove_lem dest src count mem a = elim (Bool-cases (ltb dest src)) [
  | inl below ↦ rw below (memcpy_lem mem dest src count (inl (ground arith)) a)
  | inr above ↦ rw above (copy_down_lem count dest src mem a (ground arith))
]

-- `memset` stores the low byte of `c` in each of the `count` bytes and changes no other.
pub memset_lem :
    (count s c : ℕ) (mem : Words) (a : ℕ)
    → memset s c count mem a ≡ (if leb s a && ltb a (s + count) then c % 256 else mem a)
unfolding memset
memset_lem zero s c mem a = ground arith
memset_lem (suc count) s c mem a =
    ground (arith, memset_lem count (s + 1) c (update mem s (c % 256)) a)
