-- ===== src/Multiboot.antt =====
-- include/multiboot.h: the information that the boot loader passes, and the records of its memory
-- map. The fields of `multiboot_info` that no modelled function reads are left out.
use hv_sebek.Base.{ℕ, ◌+◌, ◌^◌, ◌<◌, List, [], ◌∷◌, bit_or, shl64}

-- Four `u32` parts of two 64-bit numbers, with the size of the record less that of `size`.
pub record MemoryMap : Type 0 where
  pub size : ℕ
  pub base_addr_low : ℕ
  pub base_addr_high : ℕ
  pub length_low : ℕ
  pub length_high : ℕ
  pub type : ℕ

-- `mmap` stands for the memory at `mmap_addr`: the records that the stride `size + 4` meets.
pub record MultibootInfo : Type 0 where
  pub flags : ℕ
  pub mmap_length : ℕ
  pub mmap : List MemoryMap

abbrev pub mbi_memmap : ℕ
mbi_memmap = 2 ^ 6

-- `( (u64) high << 32 ) | (u64) low`
unfoldable pub join : ℕ → ℕ → ℕ
join high low = bit_or (shl64 high 32) low

unfoldable pub mmap_start : MemoryMap → ℕ
unfolding join
mmap_start m = join m.base_addr_high m.base_addr_low

unfoldable pub mmap_size : MemoryMap → ℕ
unfolding join
mmap_size m = join m.length_high m.length_low

-- The bytes that the records take up, as the loops over them count.
abbrev pub mmap_bytes : List MemoryMap → ℕ
mmap_bytes [] = 0
mmap_bytes (m ∷ ms) = m.size + 4 + mmap_bytes ms

-- Every field fits its `u32`.
pub record IsMemoryMap (m : MemoryMap) : Type 0 where
  pub size_fits : m.size < 2 ^ 32
  pub base_low_fits : m.base_addr_low < 2 ^ 32
  pub base_high_fits : m.base_addr_high < 2 ^ 32
  pub length_low_fits : m.length_low < 2 ^ 32
  pub length_high_fits : m.length_high < 2 ^ 32
