-- ===== src/Segment.antt =====
-- kernel/segment.c, and `glogic_2_hphysic` of kernel/intercept.c: from a logical address of the
-- guest to a linear and a physical one.
pub mod Base
use hv_sebek.Base.{
  ℕ, ◌+◌, ◌-◌, ◌*◌, ◌%◌, ◌^◌, Bool, bit_and, ◌==◌, if◌then◌else◌, Words, add64, shr, u32,
}
use hv_sebek.Base.Run.{Run, ok, fatal, ◌>>=◌}
use hv_sebek.Legacy.{
  linear2physical_legacy4kb, linear2physical_legacy4mb, linear_2_physical, x86_cr0_pe, x86_cr0_pg,
  x86_cr4_pse, x86_cr4_pae,
}

-- The fields of `struct vmcb` that address translation reads.
pub record Vmcb : Type 0 where
  pub cr0 : ℕ
  pub cr3 : ℕ
  pub cr4 : ℕ
  pub gdtr_base : ℕ

-- `* ((u64 *) address)`, in memory given as 32-bit words by byte address.
unfoldable pub read64 : Words → ℕ → ℕ
read64 mem address = mem address + mem (address + 4) * 2 ^ 32

-- `base1 + (base2 << 16) + (base3 << 24)`, in 32 bits, from the fields of a descriptor; `temp` is
-- an `unsigned int`.
unfoldable pub segment_base : ℕ → ℕ
segment_base descriptor =
    let base1 = bit_and (u32 (shr descriptor 16)) (2 ^ 16 - 1) in
    let base2 = bit_and (u32 (shr descriptor 32)) (2 ^ 8 - 1) in
    let base3 = bit_and (u32 (shr descriptor 56)) (2 ^ 8 - 1) in
    u32 (base1 + base2 * 2 ^ 16 + base3 * 2 ^ 24)

-- Where the entry of the descriptor table stands in physical memory.
unfoldable pub descriptor_address : Words → Vmcb → ℕ → Run ℕ
descriptor_address mem vmcb seg_select =
    let entry = add64 vmcb.gdtr_base (8 * shr seg_select 3) in
    if bit_and vmcb.cr0 x86_cr0_pg == 0
    then ok entry
    else (if bit_and vmcb.cr4 x86_cr4_pse == 0
        then linear2physical_legacy4kb mem vmcb.cr3 entry
        else linear2physical_legacy4mb mem vmcb.cr3 entry)

-- A selector of 0 stands for the flat memory model in protected mode.
unfoldable pub glogic_2_glinear : Words → Vmcb → ℕ → ℕ → Run ℕ
glogic_2_glinear mem vmcb seg_select offset =
    if bit_and vmcb.cr0 x86_cr0_pe == 0
    then ok (seg_select * 0x10 + bit_and offset (2 ^ 16 - 1))
    else (if seg_select == 0
        then ok offset
        else (if bit_and vmcb.cr4 x86_cr4_pae == 0
            then (descriptor_address mem vmcb seg_select >>= λ address.
                ok (add64 (segment_base (read64 mem address)) offset))
            else fatal))

unfoldable pub glogic_2_hphysic : Words → Vmcb → ℕ → ℕ → Run ℕ
glogic_2_hphysic mem vmcb seg_select offset =
    glogic_2_glinear mem vmcb seg_select offset >>= λ glinear.
    linear_2_physical mem vmcb.cr0 vmcb.cr3 vmcb.cr4 glinear
