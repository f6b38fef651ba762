-- ===== src/Startup/Block.antt =====
-- The control block of kernel/svm.c, and how it is filled.
use hv_sebek.Base.{ℕ, ◌+◌, ◌*◌, ◌/◌, ◌%◌, ◌^◌, bit_or, ltb, leb, ◌==◌, ◌&&◌, if◌then◌else◌}
use hv_sebek.Base.Run.{Run, ok, ◌>>=◌}
use hv_sebek.Page.{Host, page_size}
use hv_sebek.Consistency.{ControlBlock}
use hv_sebek.Startup.{pages_at, cleared_at, create_intercept_table}

-- `struct seg_selector`
pub record SegSelector : Type 0 where
  pub sel : ℕ
  pub attrs : ℕ
  pub limit : ℕ
  pub base : ℕ

abbrev pub no_segment : SegSelector
no_segment = record { sel = 0; attrs = 0; limit = 0; base = 0 }

-- The fields of `struct vmcb` that svm.c sets, and those that the checks of vmcb.c read.
pub record SvmBlock : Type 0 where
  pub cr_intercepts : ℕ
  pub dr_intercepts : ℕ
  pub general2_intercepts : ℕ
  pub iopm_base_pa : ℕ
  pub msrpm_base_pa : ℕ
  pub tsc_offset : ℕ
  pub guest_asid : ℕ
  pub tlb_control : ℕ
  pub np_enable : ℕ
  pub n_cr3 : ℕ
  pub es : SegSelector
  pub cs : SegSelector
  pub ss : SegSelector
  pub ds : SegSelector
  pub fs : SegSelector
  pub gs : SegSelector
  pub gdtr : SegSelector
  pub ldtr : SegSelector
  pub idtr : SegSelector
  pub tr : SegSelector
  pub cpl : ℕ
  pub efer : ℕ
  pub cr0 : ℕ
  pub cr2 : ℕ
  pub cr3 : ℕ
  pub cr4 : ℕ
  pub dr6 : ℕ
  pub dr7 : ℕ
  pub rflags : ℕ
  pub rip : ℕ
  pub rsp : ℕ
  pub rax : ℕ
  pub g_pat : ℕ

-- The block after `memset` to 0.
abbrev pub cleared_block : SvmBlock
cleared_block = record {
  cr_intercepts = 0;
  dr_intercepts = 0;
  general2_intercepts = 0;
  iopm_base_pa = 0;
  msrpm_base_pa = 0;
  tsc_offset = 0;
  guest_asid = 0;
  tlb_control = 0;
  np_enable = 0;
  n_cr3 = 0;
  es = no_segment;
  cs = no_segment;
  ss = no_segment;
  ds = no_segment;
  fs = no_segment;
  gs = no_segment;
  gdtr = no_segment;
  ldtr = no_segment;
  idtr = no_segment;
  tr = no_segment;
  cpl = 0;
  efer = 0;
  cr0 = 0;
  cr2 = 0;
  cr3 = 0;
  cr4 = 0;
  dr6 = 0;
  dr7 = 0;
  rflags = 0;
  rip = 0;
  rsp = 0;
  rax = 0;
  g_pat = 0;
}

-- What a check of kernel/vmcb.c reads of the block; of the attributes of the code segment, bits 9
-- and 10.
abbrev pub checked : SvmBlock → ControlBlock
checked b = record {
  efer = b.efer;
  cr0 = b.cr0;
  cr4 = b.cr4;
  dr6 = b.dr6;
  dr7 = b.dr7;
  general2_intercepts = b.general2_intercepts;
  cs_l = b.cs.attrs / 2 ^ 9 % 2;
  cs_db = b.cs.attrs / 2 ^ 10 % 2;
}

-- A table of `create_intercept_table` next to the block, which stands at `vmcb`: where the table
-- was given the page of the block, the block is cleared with it.
unfoldable pub intercept_table : ℕ → ℕ → SvmBlock → Host → Run (ℕ × SvmBlock × Host)
intercept_table vmcb size b h = create_intercept_table size h >>= λ (p, h').
    ok (p, (if leb p vmcb && ltb vmcb (p + size) then cleared_block else b), h')

-- `vmcb` is the address of the block.
unfoldable pub set_control_params : ℕ → SvmBlock → Host → Run (SvmBlock × Host)
unfolding intercept_table
set_control_params vmcb b h =
    let b1 : SvmBlock = record b {
      np_enable = 1;
      tlb_control = 0;
      tsc_offset = 0;
      guest_asid = 1;
      general2_intercepts = bit_or (2 ^ 0) (2 ^ 1);
    } in
    intercept_table vmcb (12 * 2 ^ 10) b1 h >>= λ (iopm, b2, h2).
    (intercept_table vmcb (8 * 2 ^ 10) (record b2 { iopm_base_pa = iopm }) h2 >>= λ (msrpm, b3, h3).
    ok (record b3 { msrpm_base_pa = msrpm }, h3))

-- `EFER_SVME`
abbrev pub efer_svme : ℕ
efer_svme = 2 ^ 12

-- `sizeof(vmcb)` is that of a pointer: of the block the first eight bytes are cleared.
unfoldable pub set_vm_to_powerup_state : SvmBlock → SvmBlock
set_vm_to_powerup_state b = record b {
  cr_intercepts = 0;
  dr_intercepts = 0;
  cr0 = 0x60000010;
  cr2 = 0;
  cr3 = 0;
  cr4 = 0;
  rflags = 0x2;
  efer = efer_svme;
  rip = 0xfff0;
  cs = record b.cs { sel = 0xf000; base = 0xffff0000; limit = 0xffff };
  ds = record b.ds { sel = 0; limit = 0xffff };
  es = record b.es { sel = 0; limit = 0xffff };
  fs = record b.fs { sel = 0; limit = 0xffff };
  gs = record b.gs { sel = 0; limit = 0xffff };
  ss = record b.ss { sel = 0; limit = 0xffff };
  gdtr = record b.gdtr { base = 0; limit = 0xffff };
  idtr = record b.idtr { base = 0; limit = 0xffff };
  ldtr = record b.ldtr { sel = 0; base = 0; limit = 0xffff };
  tr = record b.tr { sel = 0; base = 0; limit = 0xffff };
}

-- The loop over `segregs`, for one of them.
unfoldable pub start_segment : SegSelector → SegSelector
start_segment x = record x { attrs = 0x93; base = 0; limit = 0xffff }

-- The base of `ds` is an octal number in the source.
unfoldable pub set_vm_to_mbr_start_state : SvmBlock → SvmBlock
unfolding start_segment
set_vm_to_mbr_start_state b = record b {
  rax = 0;
  rip = 0x7c00;
  cs = record { attrs = 0x19b; limit = 0xffff; base = 0; sel = 0 };
  ss = record (start_segment b.ss) { attrs = 0x193 };
  ds = record (start_segment (record b.ds { sel = 0x0040 })) { base = 4 * 8 ^ 2 };
  es = start_segment b.es;
  fs = record (start_segment (record b.fs { sel = 0xe717 })) { base = 0xe7170 };
  gs = record (start_segment (record b.gs { sel = 0xf000 })) { base = 0xf0000 };
  rsp = 0x3e2;
  efer = efer_svme;
  cr0 = 0x10;
  idtr = record b.idtr { limit = 0x3ff; base = 0 };
  gdtr = record b.gdtr { limit = 0x20; base = 0x06e127 };
  rflags = 0x2206;
  cpl = 0;
  g_pat = 0x7040600070406;
}

-- `alloc_host_save_area`: a page at address 0 would not be cleared.
unfoldable pub alloc_host_save_area : Host → Run (ℕ × Host)
alloc_host_save_area h = pages_at 1 h >>= λ (hsa, h').
    (let clear = cleared_at 1 page_size h in if hsa == 0 then ok (hsa, h') else clear)

-- `alloc_vmcb`: the block fills its page.
unfoldable pub alloc_vmcb : Host → Run (ℕ × Host)
alloc_vmcb h = cleared_at 1 page_size h
