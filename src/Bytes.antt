-- ===== src/Bytes.antt =====
-- The functions of kernel/string.c that work on bytes in memory: `memcpy`, `memmove` and `memset`.
pub mod Copy
use hv_sebek.Base.{
  ℕ, zero, suc, ◌+◌, ◌-◌, ◌*◌, ◌/◌, ◌%◌, ◌^◌, Bool, ◌&&◌, bit_and, ltb, leb, ◌==◌, if◌then◌else◌,
  Words, update,
}

-- One string instruction: `width` bytes are read whole, and then written.
unfoldable pub copy_unit : ℕ → ℕ → ℕ → Words → Words
copy_unit width to from mem a =
    if leb to a && ltb a (to + width) then mem (from + (a - to)) else mem a

-- `rep ; movsl`, over the rounds that are left.
unfoldable pub copy_longs : ℕ → ℕ → ℕ → Words → Words
copy_longs zero to from mem = mem
copy_longs (suc rounds) to from mem =
    copy_longs rounds (to + 4) (from + 4) (copy_unit 4 to from mem)

-- `__inline_memcpy`: the longs, then a word and a byte as the bits of `n` say. The registers go on
-- from one instruction to the next.
unfoldable pub memcpy : ℕ → ℕ → ℕ → Words → Words
memcpy to from n mem =
    let longs : ℕ = n / 4 * 4 in
    let mem₁ = copy_longs (n / 4) to from mem in
    let word : ℕ = if bit_and n 2 == 0 then 0 else 2 in
    let mem₂ = copy_unit word (to + longs) (from + longs) mem₁ in
    let byte : ℕ = if bit_and n 1 == 0 then 0 else 1 in
    copy_unit byte (to + longs + word) (from + longs + word) mem₂

-- `while (count--) *--p = *--s`
unfoldable pub copy_down : ℕ → ℕ → ℕ → Words → Words
copy_down zero dest src mem = mem
copy_down (suc count) dest src mem =
    copy_down count dest src (update mem (dest + count) (mem (src + count)))

unfoldable pub memmove : ℕ → ℕ → ℕ → Words → Words
memmove dest src count mem =
    if ltb dest src then memcpy dest src count mem else copy_down count dest src mem

-- `while (count--) *xs++ = c`; a byte is stored.
unfoldable pub memset : ℕ → ℕ → ℕ → Words → Words
memset s c zero mem = mem
memset s c (suc count) mem = memset (s + 1) c count (update mem s (c % 2 ^ 8))
