-- ===== src/Segment/Base.antt =====
-- `glogic_2_glinear` of kernel/segment.c adds the base of the segment that is selected.
use hv_sebek.Base.{
  ℕ, ◌+◌, ◌*◌, ◌/◌, ◌%◌, ◌^◌, ◌<◌, ◌≡◌, ◌≢◌, arith, true, false, ◌==◌, Words, add64, shr, u32,
}
use hv_sebek.Base.Run.{ok}
use hv_sebek.Base.Bits.{bit_and_mask, flag_lem}
use hv_sebek.Legacy.{linear_2_physical}
use hv_sebek.Segment.{
  Vmcb, read64, segment_base, descriptor_address, glogic_2_glinear, glogic_2_hphysic,
}

-- A segment descriptor of the processor: the low half of the limit, the low 24 bits of the base,
-- 16 bits of access rights, flags and limit, and the high 8 bits of the base.
abbrev pub descriptor : ℕ → ℕ → ℕ → ℕ
descriptor base limit access =
    limit + base % 2 ^ 24 * 2 ^ 16 + access * 2 ^ 40 + base / 2 ^ 24 * 2 ^ 56

-- `glogic_2_glinear` puts the base of a descriptor together again from its parts.
pub segment_base-descriptor :
    (base limit access : ℕ)
    → base < 2 ^ 32
    → limit < 2 ^ 16
    → access < 2 ^ 16
    → segment_base (descriptor base limit access) ≡ base
unfolding segment_base
segment_base-descriptor base limit access hb hl ha =
    let d = descriptor base limit access in
    rw
      (
        bit_and_mask 16 (u32 (shr d 16)),
        bit_and_mask 8 (u32 (shr d 32)),
        bit_and_mask 8 (u32 (shr d 56)),
      )
      (omega arith)

module _ (mem : Words) (vmcb : Vmcb) (seg_select offset : ℕ) (protected : vmcb.cr0 % 2 ≡ 1)
    (narrow : vmcb.cr4 / 2 ^ 5 % 2 ≡ 0) where
  pe : (vmcb.cr0 / 1 % 2 == 0) ≡ false
  pe = ground arith

  pae : (vmcb.cr4 / 2 ^ 5 % 2 == 0) ≡ true
  pae = ground arith

  -- The walk that is written out for the descriptor is `linear_2_physical`.
  descriptor_address_lem :
      descriptor_address mem vmcb seg_select
      ≡ linear_2_physical mem vmcb.cr0 vmcb.cr3 vmcb.cr4
          (add64 vmcb.gdtr_base (8 * shr seg_select 3))
  unfolding descriptor_address linear_2_physical
  descriptor_address_lem = rw (flag_lem 0 vmcb.cr0, pe, flag_lem 5 vmcb.cr4, pae)

  -- In protected mode without address extension, a selector other than 0 whose descriptor, found
  -- in the table by `linear_2_physical`, has the base `base` takes an offset to `base` plus that
  -- offset in 64 bits, and `glogic_2_hphysic` to the physical address of that sum.
  pub glogic_2_glinear-descriptor :
      (address base limit access : ℕ)
      → seg_select ≢ 0
      → linear_2_physical mem vmcb.cr0 vmcb.cr3 vmcb.cr4
          (add64 vmcb.gdtr_base (8 * shr seg_select 3))
        ≡ ok address
      → read64 mem address ≡ descriptor base limit access
      → base < 2 ^ 32
      → limit < 2 ^ 16
      → access < 2 ^ 16
      → (glogic_2_glinear mem vmcb seg_select offset ≡ ok (add64 base offset))
        × (glogic_2_hphysic mem vmcb seg_select offset
            ≡ linear_2_physical mem vmcb.cr0 vmcb.cr3 vmcb.cr4 (add64 base offset))
  unfolding glogic_2_hphysic
  glogic_2_glinear-descriptor address base limit access selected found read hb hl ha =
      (linear, rw linear)
    where
      chosen : (seg_select == 0) ≡ false
      chosen = ground arith

      sum : segment_base (read64 mem address) ≡ base
      sum = rw read (segment_base-descriptor base limit access hb hl ha)

      linear : glogic_2_glinear mem vmcb seg_select offset ≡ ok (add64 base offset)
      linear =
          unfold glogic_2_glinear in
          rw (
            flag_lem 0 vmcb.cr0,
            pe,
            chosen,
            flag_lem 5 vmcb.cr4,
            pae,
            descriptor_address_lem,
            found,
            sum,
          )
