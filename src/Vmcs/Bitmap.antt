-- ===== src/Vmcs/Bitmap.antt =====
-- `vmx_disable_intercept_for_msr` of kernel/vmcs.c, on the page of the bitmap as 64-bit words.
use hv_sebek.Base.{
  ℕ, ◌+◌, ◌*◌, ◌/◌, ◌%◌, ◌-◌, ◌^◌, ◌<◌, ◌≡◌, arith, Bool, false, bit_and, leb, ◌==◌, ◌&&◌, ◌||◌,
  if◌then◌else◌, Words, update, Bool-cases, inl, inr,
}
use hv_sebek.Base.Bits.{bit, bit_and_mask}
use hv_sebek.Intercept.Flags.{bit-clear}

-- `clear_bit` in memory.
unfoldable pub clear_mem_bit : ℕ → ℕ → Words → Words
clear_mem_bit addr nr mem =
    update mem (addr + 8 * (nr / 64))
      (bit_and (mem (addr + 8 * (nr / 64))) (2 ^ 64 - 1 - 2 ^ (nr % 64)))

unfoldable pub vmx_disable_intercept_for_msr : ℕ → ℕ → Words → Words
unfolding clear_mem_bit
vmx_disable_intercept_for_msr msr_bitmap msr mem =
    let high = bit_and msr 0x1fff in
    if msr_bitmap == 0
    then mem
    else (if leb msr 0x1fff
        then clear_mem_bit (msr_bitmap + 0x800) msr (clear_mem_bit msr_bitmap msr mem)
        else (if leb 0xc0000000 msr && leb msr 0xc0001fff
            then clear_mem_bit (msr_bitmap + 0xc00) high
                (clear_mem_bit (msr_bitmap + 0x400) high mem)
            else mem))

-- Bit `n` of the page.
abbrev pub page_bit : ℕ → Words → ℕ → ℕ
page_bit table mem n = bit (mem (table + 8 * (n / 64))) (n % 64)

clear_mem_bit_lem :
    (table off nr n : ℕ) (mem : Words)
    → page_bit table (clear_mem_bit (table + 8 * off) nr mem) n
      ≡ (if n == 64 * off + nr then 0 else page_bit table mem n)
unfolding clear_mem_bit
clear_mem_bit_lem table off nr n mem =
    let word : table + 8 * off + 8 * (nr / 64) ≡ table + 8 * ((64 * off + nr) / 64) = omega arith in
    ground (
      arith,
      bit-clear 64 (mem (table + 8 * (n / 64))) (nr % 64) (n % 64) (omega arith) (omega arith),
    )

-- Whether bit `n` decides about a read or a write of the register.
abbrev pub decides : ℕ → ℕ → Bool
decides msr n =
    (leb msr 0x1fff && (n == msr || n == 0x4000 + msr))
    || (leb 0xc0000000 msr
        && (leb msr 0xc0001fff
            && (n == 0x2000 + (msr - 0xc0000000) || n == 0x6000 + (msr - 0xc0000000))))

-- Two bits, in words from `low` and `high` on.
two_bits :
    (table low high nr n : ℕ) (mem : Words)
    → page_bit table
        (clear_mem_bit (table + 8 * high) nr (clear_mem_bit (table + 8 * low) nr mem))
        n
      ≡ (if n == 64 * low + nr || n == 64 * high + nr then 0 else page_bit table mem n)
two_bits table low high nr n mem =
    let inner = clear_mem_bit (table + 8 * low) nr mem in
    ground (arith, clear_mem_bit_lem table high nr n inner, clear_mem_bit_lem table low nr n mem)

-- Where there is a bitmap, the interception of a register is switched off in it by clearing the
-- bits for its reads and its writes, if it is one of those that the bitmap covers: those up to
-- 0x1fff, and those from 0xc0000000 to 0xc0001fff. No other bit of the page changes.
pub vmx_disable_intercept_for_msr-bits :
    (table msr n : ℕ) (mem : Words)
    → 0 < table
    → page_bit table (vmx_disable_intercept_for_msr table msr mem) n
      ≡ (if decides msr n then 0 else page_bit table mem n)
unfolding vmx_disable_intercept_for_msr
vmx_disable_intercept_for_msr-bits table msr n mem there =
    let there' : (table == 0) ≡ false = ground arith in
    let here : table + 8 * 0 ≡ table = omega arith in
    elim (Bool-cases (leb msr 0x1fff)) [
      | inl low ↦
          let bits = rw here at (two_bits table 0 256 msr n mem) in
          rw (there', low) (ground (arith, bits, low))
      | inr not_low ↦ elim (Bool-cases (leb 0xc0000000 msr && leb msr 0xc0001fff)) [
        | inl high ↦
            let place : bit_and msr 0x1fff ≡ msr - 0xc0000000 =
              ground (arith, bit_and_mask 13 msr, high) in
            let bits = two_bits table 128 384 (msr - 0xc0000000) n mem in
            rw (there', not_low, high, place) (ground (arith, bits, high, not_low))
        | inr other ↦ rw (there', not_low, other) (ground (arith, not_low, other))
      ]
    ]
