-- ===== src/Hide.antt =====
-- `hide_memory` of kernel/e820.c: takes a region out of the RAM that the boot loader's memory map
-- shows, in the records themselves.
pub mod Records
pub mod Split
pub mod Inside
use hv_sebek.Base.{
  ℕ, ◌+◌, ◌%◌, ◌^◌, Bool, false, List, [], ◌∷◌, ltb, leb, ◌==◌, ◌&&◌, ◌||◌, not, if◌then◌else◌,
  add64, sub64, shr, u32,
}
use hv_sebek.Base.Run.{Run, ok, fault, ◌>>=◌}
use hv_sebek.E820.{e820_ram, e820_reserved}
use hv_sebek.Multiboot.{MemoryMap, MultibootInfo, mmap_start, mmap_size}

-- `newstart` and `newend` are locals of the loop's body with no initial value: what they hold
-- then, by the offset of the round.
pub record Junk : Type 0 where
  pub newstart : ℕ → ℕ
  pub newend : ℕ → ℕ

-- `replace_start` and `replace_size`: the part behind the hidden region, which waits for a record
-- to stand in. The start is read only where the size is not 0.
pub record Request : Type 0 where
  pub replace_start : ℕ
  pub replace_size : ℕ

abbrev pub no_request : Request
no_request = record { replace_start = 0; replace_size = 0 }

-- The two assignments of a 64-bit number to its `u32` parts.
unfoldable pub write_start : MemoryMap → ℕ → MemoryMap
write_start m start = record m { base_addr_low = u32 start; base_addr_high = u32 (shr start 32) }

unfoldable pub write_size : MemoryMap → ℕ → MemoryMap
write_size m size = record m { length_low = u32 size; length_high = u32 (shr size 32) }

-- A record that is not RAM: a reserved one takes up a request that waits.
unfoldable pub take_request : MemoryMap → Request → MemoryMap × Request
take_request m r =
    let taken : MemoryMap =
      write_size (write_start (record m { type = e820_ram }) r.replace_start) r.replace_size in
    if not (r.replace_size == 0) && m.type == e820_reserved
    then (taken, record r { replace_size = 0 })
    else (m, r)

-- Case 2 for a RAM record from `start` up to `end`: cut it, or mark it as reserved.
unfoldable pub trim : Junk → ℕ → ℕ → ℕ → MemoryMap → ℕ → ℕ → MemoryMap
trim junk offset hidestart hideend m start end =
    let starts_inside = leb hidestart start && leb start hideend in
    let ends_inside = leb hidestart end && leb end hideend in
    let newstart = if starts_inside then add64 hideend 1 else junk.newstart offset in
    let newend = if ends_inside then sub64 hidestart 1 else junk.newend offset in
    if starts_inside || ends_inside
    then (if ltb start end
        then write_size (write_start m newstart) (sub64 newend newstart)
        else record m { type = e820_reserved })
    else m

-- The body of the loop. In case 1 the record keeps the part before the hidden region, and the
-- part behind it becomes the request.
unfoldable pub hide_entry : Junk → ℕ → ℕ → ℕ → MemoryMap → Request → MemoryMap × Request
hide_entry junk offset hidestart hideend m r =
    let start = mmap_start m in
    let end = add64 (mmap_start m) (mmap_size m) in
    let behind : Request = record {
      replace_start = add64 hideend 1;
      replace_size = sub64 end (add64 hideend 1);
    } in
    if m.type == e820_ram
    then (if ltb start hidestart && ltb hideend end
        then (write_size m (sub64 hidestart start), behind)
        else (trim junk offset hidestart hideend m start end, r))
    else take_request m r

-- The loop at `offset`, a `u32`, over the records that are left; they are returned as they stand
-- afterwards. It reads past them where the list ends before `mmap_length` bytes.
unfoldable pub hide_from : Junk → ℕ → ℕ → ℕ → ℕ → List MemoryMap → Request → Run (List MemoryMap)
hide_from junk hidestart hideend len offset [] r = if ltb offset len then fault else ok []
hide_from junk hidestart hideend len offset (m ∷ ms) r =
    let next = u32 (offset + (m.size + 4)) in
    let (m', r') = hide_entry junk next hidestart hideend m r in
    if ltb offset len
    then (hide_from junk hidestart hideend len next ms r' >>= λ ms'. ok (m' ∷ ms'))
    else ok (m ∷ ms)

unfoldable pub hide_memory : Junk → MultibootInfo → ℕ → ℕ → Run (List MemoryMap)
unfolding hide_from
hide_memory junk mbi hidestart length =
    hide_from junk hidestart (sub64 (add64 hidestart length) 1) mbi.mmap_length 0 mbi.mmap
      no_request
