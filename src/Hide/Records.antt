-- ===== src/Hide/Records.antt =====
-- Reading back what kernel/e820.c writes to a record of the memory map.
use hv_sebek.Base.{ℕ, ◌+◌, ◌*◌, ◌^◌, ◌<◌, ◌≡◌, refl, arith, shl64, shr, u32}
use hv_sebek.Base.Bits.{bit_or_fields}
use hv_sebek.Multiboot.{MemoryMap, join, mmap_start, mmap_size}
use hv_sebek.Hide.{write_start, write_size}

pub join_lem : (high low : ℕ) → high < 2 ^ 32 → low < 2 ^ 32 → join high low ≡ high * 2 ^ 32 + low
unfolding join
join_lem high low hh hl =
    let e : shl64 high 32 ≡ high * 2 ^ 32 = omega arith in rw e (bit_or_fields 32 high low hl)

join_parts : (x : ℕ) → x < 2 ^ 64 → join (u32 (shr x 32)) (u32 x) ≡ x
join_parts x h = rw (join_lem (u32 (shr x 32)) (u32 x) (omega arith) (omega arith)) (omega arith)

module _ (m : MemoryMap) (x : ℕ) (fits : x < 2 ^ 64) where
  pub mmap_start-write_start : mmap_start (write_start m x) ≡ x
  unfolding mmap_start write_start
  mmap_start-write_start = join_parts x fits

  pub mmap_size-write_size : mmap_size (write_size m x) ≡ x
  unfolding mmap_size write_size
  mmap_size-write_size = join_parts x fits

module _ (m : MemoryMap) (x : ℕ) where
  pub mmap_start-write_size : mmap_start (write_size m x) ≡ mmap_start m
  unfolding mmap_start write_size
  mmap_start-write_size = refl

  pub type-write_size : (write_size m x).type ≡ m.type
  unfolding write_size
  type-write_size = refl

  pub type-write_start : (write_start m x).type ≡ m.type
  unfolding write_start
  type-write_start = refl
