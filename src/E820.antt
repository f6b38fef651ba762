-- ===== src/E820.antt =====
-- kernel/e820.c and include/e820.h: the host's own copy of the memory map, and what is read off it.
-- `e820_print_map` only prints and is left out.
pub mod Setup
pub mod MaxPfn
use hv_sebek.Base.{
  ℕ, ◌+◌, ◌^◌, Bool, List, [], ◌∷◌, ◌++◌, ltb, leb, ◌==◌, ◌&&◌, if◌then◌else◌, length, add64, sub64,
  shr, bit_and,
}
use hv_sebek.Base.Run.{Run, ok, fatal, fault, ◌>>=◌}
use hv_sebek.Multiboot.{MemoryMap, MultibootInfo, mbi_memmap, mmap_start, mmap_size}

abbrev pub e820_max_entries : ℕ
e820_max_entries = 128

abbrev pub e820_ram : ℕ
e820_ram = 1

abbrev pub e820_reserved : ℕ
e820_reserved = 2

pub record E820Entry : Type 0 where
  pub addr : ℕ
  pub size : ℕ
  pub type : ℕ

-- The first `nr_map` entries of the array `map`; `nr_map` is their number.
abbrev pub E820Map : Type 0
E820Map = List E820Entry

unfoldable pub add_memory_region : E820Map → ℕ → ℕ → ℕ → Run E820Map
add_memory_region e820 start size type =
    if leb e820_max_entries (length e820)
    then fatal
    else ok (e820 ++ record { addr = start; size = size; type = type } ∷ [])

-- The loop of `setup_memory_region` at offset `p`; it reads past the records where the list ends
-- before `mmap_length` bytes.
unfoldable pub setup_from : ℕ → ℕ → List MemoryMap → E820Map → Run E820Map
setup_from len p [] e820 = if ltb p len then fault else ok e820
setup_from len p (m ∷ ms) e820 =
    if ltb p len
    then (add_memory_region e820 (mmap_start m) (mmap_size m) m.type >>= λ grown.
        setup_from len (add64 p (m.size + 4)) ms grown)
    else ok e820

unfoldable pub setup_memory_region : MultibootInfo → Run E820Map
unfolding setup_from add_memory_region
setup_memory_region mbi =
    if bit_and mbi.flags mbi_memmap == 0 then fatal else setup_from mbi.mmap_length 0 mbi.mmap []

unfoldable pub nr_pages_from : ℕ → E820Map → ℕ
nr_pages_from n [] = n
nr_pages_from n (p ∷ ps) =
    nr_pages_from (if p.type == e820_ram then add64 n (shr p.size 12) else n) ps

unfoldable pub get_nr_pages : E820Map → ℕ
unfolding nr_pages_from
get_nr_pages e820 = nr_pages_from 0 e820

-- `PFN_UP` and `PFN_DOWN` of include/page.h.
unfoldable pub pfn_up : ℕ → ℕ
pfn_up x = shr (sub64 (add64 x (2 ^ 12)) 1) 12

unfoldable pub pfn_down : ℕ → ℕ
pfn_down x = shr x 12

-- One round of the loop of `get_max_pfn`.
unfoldable pub max_pfn_step : ℕ → E820Entry → ℕ
unfolding pfn_up pfn_down
max_pfn_step n p =
    let start = pfn_up p.addr in
    let end = pfn_down (add64 p.addr p.size) in
    if p.type == e820_ram then (if ltb start end && ltb n end then end else n) else n

unfoldable pub max_pfn_from : ℕ → E820Map → ℕ
unfolding max_pfn_step
max_pfn_from n [] = n
max_pfn_from n (p ∷ ps) = max_pfn_from (max_pfn_step n p) ps

unfoldable pub get_max_pfn : E820Map → ℕ
unfolding max_pfn_from
get_max_pfn e820 = max_pfn_from 0 e820
