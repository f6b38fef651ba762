-- ===== src/E820/Setup.antt =====
-- `setup_memory_region` of kernel/e820.c copies the boot loader's map, or stops the machine.
use mathlib.Core.List.{append_assoc, append-nil}
use hv_sebek.Base.{
  ℕ, ◌+◌, ◌^◌, ◌≤◌, ◌<◌, ◌≡◌, arith, List, [], ◌∷◌, ◌++◌, map, leb, ◌==◌, if◌then◌else◌, length,
  length-append, Bool-cases, inl, inr, bit_and,
}
use hv_sebek.Base.Run.{ok, fatal}
use hv_sebek.Multiboot.{MemoryMap, MultibootInfo, mbi_memmap, mmap_start, mmap_size, mmap_bytes}
use hv_sebek.E820.{
  E820Entry, E820Map, add_memory_region, setup_from, setup_memory_region, e820_max_entries,
}

-- The entry that stands for a record.
abbrev pub entry_of : MemoryMap → E820Entry
entry_of m = record { addr = mmap_start m; size = mmap_size m; type = m.type }

setup_from_lem :
    (len p : ℕ) (ms : List MemoryMap) (e820 : E820Map)
    → p + mmap_bytes ms ≡ len
    → len < 2 ^ 64
    → length e820 ≤ 128
    → setup_from len p ms e820
      ≡ (if leb (length e820 + length ms) 128 then ok (e820 ++ map entry_of ms) else fatal)
unfolding setup_from add_memory_region
setup_from_lem len p [] e820 e small few = ground (arith, append-nil e820)
setup_from_lem len p (m ∷ ms) e820 e small few = elim (Bool-cases (leb 128 (length e820))) [
  | inl full ↦ ground arith
  | inr room ↦ ground (
    arith,
    setup_from_lem len (p + (m.size + 4)) ms (e820 ++ entry_of m ∷ []) (omega arith) small
        (ground (arith, length-append e820 (entry_of m ∷ []))),
    length-append e820 (entry_of m ∷ []),
    append_assoc e820 (entry_of m ∷ []) (map entry_of ms),
  )
]

-- Where the records fill exactly `mmap_length` bytes, which fit 64 bits, `setup_memory_region`
-- stops the machine if the map is not flagged or has more than 128 records, and otherwise lists
-- all of them in order.
pub setup_memory_region_lem :
    (mbi : MultibootInfo)
    → mmap_bytes mbi.mmap ≡ mbi.mmap_length
    → mbi.mmap_length < 2 ^ 64
    → setup_memory_region mbi ≡ (
        if bit_and mbi.flags mbi_memmap == 0
        then fatal
        else (if leb (length mbi.mmap) e820_max_entries then ok (map entry_of mbi.mmap) else fatal))
unfolding setup_memory_region
setup_memory_region_lem mbi e small =
    ground (arith, setup_from_lem mbi.mmap_length 0 mbi.mmap [] (omega arith) small (omega arith))
