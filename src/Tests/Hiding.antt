-- ===== src/Tests/Hiding.antt =====
-- `hide_memory` of kernel/e820.c at concrete inputs.
use hv_sebek.Base.{ℕ, ◌+◌, ◌-◌, ◌^◌, ◌≡◌, inr, refl, arith, not, ltb, leb, ◌&&◌, List, [], ◌∷◌}
use hv_sebek.Base.Run.{ok}
use hv_sebek.Multiboot.{MemoryMap, MultibootInfo, mmap_start, mmap_size, join}
use hv_sebek.E820.{e820_ram}
use hv_sebek.Hide.{Junk, no_request, hide_entry, hide_memory}
use hv_sebek.Hide.Split.{apart, around, reserved, done, IsApart, IsAround, shows, hide_memory-shows}
use hv_sebek.Hide.Inside.{hide_entry-inside}

abbrev junk : Junk
junk = record { newstart = λ _. 0x77; newend = λ _. 0x99 }

abbrev low_ram : MemoryMap
low_ram = record {
  size = 20;
  base_addr_low = 0;
  base_addr_high = 0;
  length_low = 0xa0000;
  length_high = 0;
  type = 1;
}

abbrev high_ram : MemoryMap
high_ram = record {
  size = 20;
  base_addr_low = 0x100000;
  base_addr_high = 0;
  length_low = 0xf00000;
  length_high = 0;
  type = 1;
}

abbrev rom : MemoryMap
rom = record {
  size = 20;
  base_addr_low = 0xf0000;
  base_addr_high = 0;
  length_low = 0x10000;
  length_high = 0;
  type = 2;
}

abbrev boot_info : MultibootInfo
boot_info = record { flags = 2 ^ 6; mmap_length = 72; mmap = low_ram ∷ high_ram ∷ rom ∷ [] }

low_ram-IsApart : IsApart 0x800000 0x8fffff low_ram
unfolding mmap_start mmap_size join
low_ram-IsApart = record { is_ram = refl; fits = omega arith; outside = inr (omega arith) }

high_ram-IsAround : IsAround 0x800000 0x8fffff high_ram
unfolding mmap_start mmap_size join
high_ram-IsAround = record {
  is_ram = refl;
  fits = omega arith;
  before = omega arith;
  after = omega arith;
}

hide_memory-shows_example :
    (ms : List MemoryMap) × (hide_memory junk boot_info 0x800000 0x100000 ≡ ok ms)
    × ((x : ℕ)
        → shows ms x
          ≡ (shows boot_info.mmap x && not (leb 0x800000 x && ltb x (0x800000 + 0x100000))))
hide_memory-shows_example =
    hide_memory-shows junk boot_info 0x800000 0x100000 (omega arith) (omega arith) refl
      (omega arith) (apart low_ram-IsApart (around high_ram-IsAround (reserved refl done)))

low_ram_start : mmap_start low_ram ≡ 0
unfolding mmap_start join
low_ram_start = refl

low_ram_size : mmap_size low_ram ≡ 0xa0000
unfolding mmap_size join
low_ram_size = refl

high_ram_start : mmap_start high_ram ≡ 0x100000
unfolding mmap_start join
high_ram_start = refl

high_ram_size : mmap_size high_ram ≡ 0xf00000
unfolding mmap_size join
high_ram_size = refl

hide_entry-inside_example :
    ((hide_entry junk 24 0x80000 0x1ffffff high_ram no_request).0.type ≡ e820_ram)
    × (mmap_start (hide_entry junk 24 0x80000 0x1ffffff high_ram no_request).0 ≡ 0x1ffffff + 1)
    × (mmap_size (hide_entry junk 24 0x80000 0x1ffffff high_ram no_request).0
          + (0x1ffffff - 0x80000)
          + 2
        ≡ 2 ^ 64)
hide_entry-inside_example =
    hide_entry-inside junk 24 0x80000 0x1ffffff high_ram no_request refl
      (omega (arith, high_ram_start, high_ram_size)) (omega arith) (omega (arith, high_ram_start))
      (omega (arith, high_ram_size)) (omega arith) (omega (arith, high_ram_start, high_ram_size))
