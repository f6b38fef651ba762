-- ===== src/Hide/Split.antt =====
-- What `hide_memory` does to the RAM that the map shows, where the code's two cases suffice.
use hv_sebek.Base.{
  ℕ, ◌+◌, ◌-◌, ◌^◌, ◌≤◌, ◌<◌, ◌≡◌, ◌≢◌, ◌⊎◌, inl, inr, refl, ap, ◌∙◌, arith, Bool, true, false,
  List, [], ◌∷◌, ltb, leb, ◌==◌, ◌&&◌, ◌||◌, not, Bool-cases, add64, sub64, u32,
}
use hv_sebek.Base.Run.{Run, ok}
use hv_sebek.E820.{e820_ram, e820_reserved}
use hv_sebek.Multiboot.{MemoryMap, MultibootInfo, mmap_start, mmap_size, mmap_bytes}
use hv_sebek.Hide.{
  Junk, Request, no_request, take_request, write_start, write_size, trim, hide_entry, hide_from,
  hide_memory,
}
use hv_sebek.Hide.Records.{
  mmap_start-write_start, mmap_size-write_size, mmap_start-write_size, type-write_size,
  type-write_start,
}

-- Whether a record, and whether a map, shows byte `x` as RAM.
abbrev pub ram_at : MemoryMap → ℕ → Bool
ram_at m x = m.type == e820_ram && leb (mmap_start m) x && ltb x (mmap_start m + mmap_size m)

abbrev pub shows : List MemoryMap → ℕ → Bool
shows [] x = false
shows (m ∷ ms) x = ram_at m x || shows ms x

abbrev pub hidden : ℕ → ℕ → ℕ → Bool
hidden hidestart hideend x = leb hidestart x && leb x hideend

abbrev waits : Request → ℕ → Bool
waits r x = leb r.replace_start x && ltb x (r.replace_start + r.replace_size)

-- A RAM record with room to either side of the hidden region, and one around all of it.
pub record IsApart (hidestart hideend : ℕ) (m : MemoryMap) : Type 0 where
  pub is_ram : m.type ≡ e820_ram
  pub fits : mmap_start m + mmap_size m < 2 ^ 64
  pub outside : (hideend < mmap_start m) ⊎ (mmap_start m + mmap_size m < hidestart)

pub record IsAround (hidestart hideend : ℕ) (m : MemoryMap) : Type 0 where
  pub is_ram : m.type ≡ e820_ram
  pub fits : mmap_start m + mmap_size m < 2 ^ 64
  pub before : mmap_start m < hidestart
  pub after : hideend + 1 < mmap_start m + mmap_size m

-- The maps that the code can treat: no RAM record ends or starts within the hidden region or just
-- before it, and one that is around it is followed by a reserved record before the next such. The
-- Boolean says whether a part still waits for its reserved record.
pub data Hideable (hidestart hideend : ℕ) : Bool → List MemoryMap → Type 0 where
  done : Hideable hidestart hideend false []
  other :
      {b : Bool} {m : MemoryMap} {ms : List MemoryMap}
      → m.type ≢ e820_ram
      → m.type ≢ e820_reserved
      → Hideable hidestart hideend b ms
      → Hideable hidestart hideend b (m ∷ ms)
  reserved :
      {b : Bool} {m : MemoryMap} {ms : List MemoryMap}
      → m.type ≡ e820_reserved
      → Hideable hidestart hideend false ms
      → Hideable hidestart hideend b (m ∷ ms)
  apart :
      {b : Bool} {m : MemoryMap} {ms : List MemoryMap}
      → IsApart hidestart hideend m
      → Hideable hidestart hideend b ms
      → Hideable hidestart hideend b (m ∷ ms)
  around :
      {m : MemoryMap} {ms : List MemoryMap}
      → IsAround hidestart hideend m
      → Hideable hidestart hideend true ms
      → Hideable hidestart hideend false (m ∷ ms)

module _ (junk : Junk) (hidestart hideend : ℕ) (ordered : hidestart ≤ hideend)
    (small : hideend + 1 < 2 ^ 64) where
  -- What one round keeps: what the record shows and what waits make up what they did before, less
  -- the hidden bytes of the record.
  record Keeps (b : Bool) (m : MemoryMap) (r : Request) (out : MemoryMap × Request) : Type 0 where
    shown :
        (x : ℕ)
        → (ram_at out.0 x || waits out.1 x)
          ≡ (ram_at m x && not (hidden hidestart hideend x) || waits r x)
    pending : b ≡ not (out.1.replace_size == 0)
    fits : out.1.replace_start + out.1.replace_size < 2 ^ 64

  module _ (offset : ℕ) (m : MemoryMap) (r : Request)
      (fits : r.replace_start + r.replace_size < 2 ^ 64) where
    Keeps-other :
        (b : Bool)
        → m.type ≢ e820_ram
        → m.type ≢ e820_reserved
        → b ≡ not (r.replace_size == 0)
        → Keeps b m r (hide_entry junk offset hidestart hideend m r)
    unfolding hide_entry take_request
    Keeps-other b no_ram no_reserved e = record {
      shown = λ x. ground arith;
      pending = ground arith;
      fits = ground arith;
    }

    -- A record that takes up the request shows exactly what waited.
    Keeps-taken :
        m.type ≡ e820_reserved
        → (w : MemoryMap) → w.type ≡ e820_ram
        → mmap_start w ≡ r.replace_start
        → mmap_size w ≡ r.replace_size
        → Keeps false m r (w, record r { replace_size = 0 })
    Keeps-taken is_reserved w ram start size = record {
      shown = λ x. ground arith;
      pending = refl;
      fits = omega arith;
    }

    Keeps-idle : m.type ≡ e820_reserved → r.replace_size ≡ 0 → Keeps false m r (m, r)
    Keeps-idle is_reserved none_waits = record {
      shown = λ x. ground arith;
      pending = ground arith;
      fits = fits;
    }

    Keeps-reserved :
        m.type ≡ e820_reserved → Keeps false m r (hide_entry junk offset hidestart hideend m r)
    unfolding hide_entry take_request
    Keeps-reserved is_reserved =
        let m' : MemoryMap = record m { type = e820_ram } in
        let s = write_start m' r.replace_start in
        let no_ram : (m.type == e820_ram) ≡ false = ground arith in
        let reserved' : (m.type == e820_reserved) ≡ true = ground arith in
        rw (no_ram, reserved')
          (elim (Bool-cases (r.replace_size == 0)) [
            | inl none_waits ↦ rw none_waits (Keeps-idle is_reserved (ground arith))
            | inr some_waits ↦ rw some_waits (
                Keeps-taken is_reserved (write_size s r.replace_size)
                  (ground
                    (arith, type-write_size s r.replace_size, type-write_start m' r.replace_start))
                  (ground (
                    arith,
                    mmap_start-write_size s r.replace_size,
                    mmap_start-write_start m' r.replace_start (omega arith),
                  ))
                  (mmap_size-write_size s r.replace_size (omega arith)))
          ])

    trim_apart :
        IsApart hidestart hideend m
        → trim junk offset hidestart hideend m (mmap_start m) (add64 (mmap_start m) (mmap_size m))
          ≡ m
    unfolding trim
    trim_apart a =
        let out : (leb hidestart (mmap_start m) && leb (mmap_start m) hideend) ≡ false =
          ground arith in
        let out' : (leb hidestart (add64 (mmap_start m) (mmap_size m))
              && leb (add64 (mmap_start m) (mmap_size m)) hideend)
            ≡ false =
          ground arith in
        rw (out, out')

    Keeps-apart :
        (b : Bool)
        → IsApart hidestart hideend m
        → b ≡ not (r.replace_size == 0)
        → Keeps b m r (hide_entry junk offset hidestart hideend m r)
    unfolding hide_entry
    Keeps-apart b a e =
        let ram : (m.type == e820_ram) ≡ true = ground arith in
        let inside : (ltb (mmap_start m) hidestart
              && ltb hideend (add64 (mmap_start m) (mmap_size m)))
            ≡ false =
          ground arith in
        rw (ram, inside, trim_apart a)
          (record { shown = λ x. ground arith; pending = e; fits = fits })

    -- The part before the hidden region, and the part behind it that waits.
    Keeps-cut :
        IsAround hidestart hideend m
        → r.replace_size ≡ 0
        → (w : MemoryMap) → w.type ≡ e820_ram
        → mmap_start w ≡ mmap_start m
        → mmap_size w ≡ hidestart - mmap_start m
        → (r' : Request) → r'.replace_start ≡ hideend + 1
        → r'.replace_size ≡ mmap_start m + mmap_size m - (hideend + 1)
        → Keeps (not (r'.replace_size == 0)) m r (w, r')
    Keeps-cut a none_waits w ram start size r' start' size' = record {
      shown = λ x. ground arith;
      pending = refl;
      fits = omega arith;
    }

    Keeps-around :
        IsAround hidestart hideend m
        → r.replace_size ≡ 0
        → Keeps true m r (hide_entry junk offset hidestart hideend m r)
    unfolding hide_entry
    Keeps-around a none_waits =
        let size = sub64 hidestart (mmap_start m) in
        let ram : (m.type == e820_ram) ≡ true = ground arith in
        let inside : (ltb (mmap_start m) hidestart
              && ltb hideend (add64 (mmap_start m) (mmap_size m)))
            ≡ true =
          ground arith in
        let behind : Request = record {
          replace_start = add64 hideend 1;
          replace_size = sub64 (add64 (mmap_start m) (mmap_size m)) (add64 hideend 1);
        } in
        let some_waits : not (behind.replace_size == 0) ≡ true = ground arith in
        rw (ram, inside)
          (rw some_waits at (
            Keeps-cut a none_waits (write_size m size) (ground (arith, type-write_size m size))
              (mmap_start-write_size m size)
              (omega (arith, mmap_size-write_size m size (omega arith))) behind (omega arith)
              (omega arith)))

  abbrev Result : List MemoryMap → Request → Run (List MemoryMap) → Type 0
  Result ms r out =
      (ms' : List MemoryMap) × (out ≡ ok ms')
      × ((x : ℕ) → shows ms' x ≡ (shows ms x && not (hidden hidestart hideend x) || waits r x))

  module _ (len : ℕ) (len_fits : len < 2 ^ 32) where
    -- A round that keeps what it should, before a rest of the loop that does.
    Keeps-then :
        (b : Bool) (offset : ℕ) (m : MemoryMap) (ms : List MemoryMap) (r : Request)
        → offset < len
        → let next = u32 (offset + (m.size + 4)) in
          let out = hide_entry junk next hidestart hideend m r in
          Keeps b m r out
          → Result ms out.1 (hide_from junk hidestart hideend len next ms out.1)
          → Result (m ∷ ms) r (hide_from junk hidestart hideend len offset (m ∷ ms) r)
    unfolding hide_from
    Keeps-then b offset m ms r inside k (ms', e, shown) =
        let next = u32 (offset + (m.size + 4)) in
        let out = hide_entry junk next hidestart hideend m r in
        let test : ltb offset len ≡ true = ground arith in
        rw (test, e) (out.0 ∷ ms', refl, λ x. ground (arith, k.shown x, shown x))

    hide_from-Result :
        {b : Bool} {ms : List MemoryMap} (offset : ℕ) (r : Request)
        → Hideable hidestart hideend b ms
        → offset + mmap_bytes ms ≡ len
        → b ≡ not (r.replace_size == 0)
        → r.replace_start + r.replace_size < 2 ^ 64
        → Result ms r (hide_from junk hidestart hideend len offset ms r)
    unfolding hide_from
    hide_from-Result offset r done end e fits = ([], ground arith, λ x. ground arith)
    hide_from-Result offset r (other {b} {m} {ms} no_ram no_reserved rest) end e fits =
        let next = u32 (offset + (m.size + 4)) in
        let k = Keeps-other next m r fits b no_ram no_reserved e in
        let out = hide_entry junk next hidestart hideend m r in
        Keeps-then b offset m ms r (omega arith) k
          (hide_from-Result next out.1 rest (omega arith) k.pending k.fits)
    hide_from-Result offset r (reserved {m} {ms} is_reserved rest) end e fits =
        let next = u32 (offset + (m.size + 4)) in
        let k = Keeps-reserved next m r fits is_reserved in
        let out = hide_entry junk next hidestart hideend m r in
        Keeps-then false offset m ms r (omega arith) k
          (hide_from-Result next out.1 rest (omega arith) k.pending k.fits)
    hide_from-Result offset r (apart {b} {m} {ms} a rest) end e fits =
        let next = u32 (offset + (m.size + 4)) in
        let k = Keeps-apart next m r fits b a e in
        let out = hide_entry junk next hidestart hideend m r in
        Keeps-then b offset m ms r (omega arith) k
          (hide_from-Result next out.1 rest (omega arith) k.pending k.fits)
    hide_from-Result offset r (around {m} {ms} a rest) end e fits =
        let next = u32 (offset + (m.size + 4)) in
        let k = Keeps-around next m r fits a (ground arith) in
        let out = hide_entry junk next hidestart hideend m r in
        Keeps-then true offset m ms r (omega arith) k
          (hide_from-Result next out.1 rest (omega arith) k.pending k.fits)

-- On a map that the code can treat, whose records fill exactly `mmap_length` bytes, hiding a
-- nonempty region returns, whatever the uninitialised locals hold, and afterwards the map shows a
-- byte as RAM exactly when it did before and the byte is outside the region.
pub hide_memory-shows :
    (junk : Junk) (mbi : MultibootInfo) (hidestart length : ℕ)
    → 0 < length
    → hidestart + length < 2 ^ 64
    → mmap_bytes mbi.mmap ≡ mbi.mmap_length
    → mbi.mmap_length < 2 ^ 32
    → Hideable hidestart (hidestart + length - 1) false mbi.mmap
    → (ms : List MemoryMap) × (hide_memory junk mbi hidestart length ≡ ok ms)
      × ((x : ℕ)
          → shows ms x ≡ (shows mbi.mmap x && not (leb hidestart x && ltb x (hidestart + length))))
unfolding hide_memory
hide_memory-shows junk mbi hidestart length pos small bytes fits able =
    let hideend : sub64 (add64 hidestart length) 1 ≡ hidestart + length - 1 = omega arith in
    let (ms, e, shown) =
      hide_from-Result junk hidestart (hidestart + length - 1) (omega arith) (omega arith)
        mbi.mmap_length fits 0 no_request able (omega arith) refl (omega arith) in
    (
      ms,
      ap (λ (h : ℕ). hide_from junk hidestart h mbi.mmap_length 0 mbi.mmap no_request) hideend ∙ e,
      λ x. ground (arith, shown x),
    )
