-- ===== src/Hide/Inside.antt =====
-- The RAM records that `hide_memory` of kernel/e820.c treats wrongly.
use hv_sebek.Base.{
  ℕ, ◌+◌, ◌-◌, ◌^◌, ◌≤◌, ◌<◌, ◌≡◌, ◌⊎◌, inr, arith, true, false, ltb, leb, ◌==◌, ◌&&◌, add64, sub64,
}
use hv_sebek.E820.{e820_ram}
use hv_sebek.Multiboot.{MemoryMap, mmap_start, mmap_size}
use hv_sebek.Hide.{Junk, Request, write_start, trim, hide_entry}
use hv_sebek.Hide.Records.{
  mmap_start-write_start, mmap_size-write_size, mmap_start-write_size, type-write_size,
  type-write_start,
}

module _ (junk : Junk) (offset hidestart hideend : ℕ) (m : MemoryMap) (r : Request)
    (ram : m.type ≡ e820_ram) (fits : mmap_start m + mmap_size m < 2 ^ 64)
    (small : hideend + 1 < 2 ^ 64) where
  trimmed :
      hidestart ≤ mmap_start m ⊎ mmap_start m + mmap_size m ≤ hideend
      → hide_entry junk offset hidestart hideend m r
        ≡ (trim junk offset hidestart hideend m (mmap_start m) (mmap_start m + mmap_size m), r)
  unfolding hide_entry
  trimmed side =
      let end : add64 (mmap_start m) (mmap_size m) ≡ mmap_start m + mmap_size m = omega arith in
      let is_ram : (m.type == e820_ram) ≡ true = ground arith in
      let one_side : (ltb (mmap_start m) hidestart && ltb hideend (mmap_start m + mmap_size m))
          ≡ false =
        ground arith in
      rw (end, is_ram, one_side)

  -- With numbers that fit 64 bits and a region that does not start at 0: a nonempty RAM record
  -- that starts in the hidden region and ends before the region's last byte is not marked as
  -- reserved: it stays RAM, from the byte behind the region on, with a size that has wrapped
  -- below 0.
  pub hide_entry-inside :
      hidestart ≤ mmap_start m
      → 0 < mmap_size m
      → 0 < hidestart
      → mmap_start m + mmap_size m ≤ hideend
      → ((hide_entry junk offset hidestart hideend m r).0.type ≡ e820_ram)
        × (mmap_start (hide_entry junk offset hidestart hideend m r).0 ≡ hideend + 1)
        × (mmap_size (hide_entry junk offset hidestart hideend m r).0 + (hideend - hidestart) + 2
            ≡ 2 ^ 64)
  unfolding trim
  hide_entry-inside from nonempty pos to =
      let start = add64 hideend 1 in
      let size = sub64 (sub64 hidestart 1) start in
      let m' = write_start m start in
      let in₁ : (leb hidestart (mmap_start m) && leb (mmap_start m) hideend) ≡ true =
        ground arith in
      let in₂ : (leb hidestart (mmap_start m + mmap_size m)
            && leb (mmap_start m + mmap_size m) hideend)
          ≡ true =
        ground arith in
      let some : ltb (mmap_start m) (mmap_start m + mmap_size m) ≡ true = ground arith in
      rw (trimmed (inr to), in₁, in₂, some)
        (
          ground (arith, type-write_size m' size, type-write_start m start),
          omega
              (arith, mmap_start-write_size m' size, mmap_start-write_start m start (omega arith)),
          omega (arith, mmap_size-write_size m' size (omega arith)),
        )

  -- With numbers that fit 64 bits: a RAM record that only ends inside the hidden region starts
  -- afterwards at what an uninitialised local held.
  pub hide_entry_ends_inside :
      mmap_start m < hidestart
      → hidestart ≤ mmap_start m + mmap_size m
      → mmap_start m + mmap_size m ≤ hideend
      → junk.newstart offset < 2 ^ 64
      → mmap_start (hide_entry junk offset hidestart hideend m r).0 ≡ junk.newstart offset
  unfolding trim
  hide_entry_ends_inside before from to junk_fits =
      let newstart = junk.newstart offset in
      let size = sub64 (sub64 hidestart 1) newstart in
      let in₁ : (leb hidestart (mmap_start m) && leb (mmap_start m) hideend) ≡ false =
        ground arith in
      let in₂ : (leb hidestart (mmap_start m + mmap_size m)
            && leb (mmap_start m + mmap_size m) hideend)
          ≡ true =
        ground arith in
      let some : ltb (mmap_start m) (mmap_start m + mmap_size m) ≡ true = ground arith in
      rw (trimmed (inr to), in₁, in₂, some)
        (omega (
          arith,
          mmap_start-write_size (write_start m newstart) size,
          mmap_start-write_start m newstart junk_fits,
        ))
