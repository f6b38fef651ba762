-- ===== src/Vmexit.antt =====
-- The exits of the guest in kernel/intercept.c, whole: `handle_vmexit` with its handlers, what they
-- report, the events they inject and the tables they keep. Interceptions stand in Intercept, the
-- tables in Tracking, address translation in Segment.
pub mod Task
pub mod Reports
pub mod Calls
pub mod Handlers
pub mod Steps
pub mod Total
pub mod Events
pub mod Sysenter
pub mod Opened
pub mod Pending
pub mod Commands
pub mod Arguments
use hv_sebek.Base.{
  ℕ, ◌-◌, ◌^◌, ◌≡◌, Bool, String, List, [], ◌∷◌, ◌%◌, Words, if◌then◌else◌, add64, u32, Option,
  none, some,
}
use hv_sebek.Base.Run.{Run}
use hv_sebek.Intercept.{Guest}
use hv_sebek.Segment.{Vmcb, glogic_2_hphysic}
use hv_sebek.Tracking.{Table, Fid2nameMap, Tid2syscallMap, vm_get_fname_from_id}

-- The registers that the control block does not hold.
pub record Registers : Type 0 where
  pub g_rbx : ℕ
  pub g_rcx : ℕ
  pub g_rdx : ℕ
  pub g_rsi : ℕ
  pub g_rdi : ℕ
  pub g_rbp : ℕ

-- `eventinj_t`, by its fields.
pub record Event : Type 0 where
  pub vector : ℕ
  pub type : ℕ
  pub ev : ℕ
  pub resvd1 : ℕ
  pub v : ℕ
  pub errorcode : ℕ

-- The guest: what Intercept holds of it, and the other fields of `struct vm_info` and `struct vmcb`
-- that the handlers read or write. A segment register is its selector.
pub record Vm : Type 0 where
  pub guest : Guest
  pub regs : Registers
  pub eventinj : Event
  pub cr0 : ℕ
  pub cr2 : ℕ
  pub cr4 : ℕ
  pub efer : ℕ
  pub cpl : ℕ
  pub gdtr_base : ℕ
  pub cs : ℕ
  pub ss : ℕ
  pub ds : ℕ
  pub tr : ℕ
  pub rax : ℕ
  pub rip : ℕ
  pub rsp : ℕ
  pub exitcode : ℕ
  pub exitinfo1 : ℕ
  pub exitinfo2 : ℕ
  pub sysenter_cs : ℕ
  pub sysenter_esp : ℕ
  pub sysenter_eip : ℕ
  pub org_sysenter_cs : ℕ

-- An argument of `outf`: a number, an address at which a text stands in memory, a text of one of
-- the tables, or a name that the code holds.
pub data Said : Type 0 where
  hex : ℕ → Said
  at : ℕ → Said
  text : List ℕ → Said
  name : String → Said

-- A call of `outf`.
pub record Report : Type 0 where
  pub format : String
  pub args : List Said

-- What the host keeps of the guest: the tables, and what has been reported, the latest call first.
-- Of the names of tracked processes each stands in its slot.
pub record Kept : Type 0 where
  pub fmap : Table Fid2nameMap
  pub syscallmap : Table Tid2syscallMap
  pub ptracked : Table (List ℕ)
  pub log : List Report

abbrev pub outf : Kept → String → List Said → Kept
outf k format args = record k { log = record { format = format; args = args } ∷ k.log }

-- `vmcb_get_fname` and the report of it that many handlers start with.
abbrev pub outf_file : Kept → ℕ → String → String → Kept
outf_file k id unnamed named = name_or (vm_get_fname_from_id k.fmap (u32 id))
  where
    name_or : Option (List ℕ) → Kept
    name_or none = outf k unnamed (hex id ∷ [])
    name_or (some fname) = outf k named (text fname ∷ [])

-- -1 as an `unsigned long`.
abbrev pub no_address : ℕ
no_address = 2 ^ 64 - 1

abbrev pub vmcb_of : Vm → Vmcb
vmcb_of vm = record { cr0 = vm.cr0; cr3 = vm.guest.cr3; cr4 = vm.cr4; gdtr_base = vm.gdtr_base }

-- `glogic_2_hphysic` on the guest.
abbrev pub hphysic : Vm → ℕ → ℕ → Run ℕ
hphysic vm seg_select offset = glogic_2_hphysic vm.guest.mem (vmcb_of vm) seg_select offset

-- The reads of a byte and of 16 bits, from the word that starts at the address.
abbrev pub read8 : Words → ℕ → ℕ
read8 mem address = mem address % 2 ^ 8

abbrev pub read16 : Words → ℕ → ℕ
read16 mem address = mem address % 2 ^ 16
