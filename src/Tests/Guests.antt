-- ===== src/Tests/Guests.antt =====
-- What kernel/vm.c and kernel/intercept.c keep of a guest, at concrete inputs.
use hv_sebek.Base.{ℕ, ◌+◌, ◌^◌, ◌≡◌, refl, arith, ◌==◌, if◌then◌else◌, List, [], ◌∷◌}
use hv_sebek.Base.Bits.{bit}
use hv_sebek.Tracking.{Table, Fid2nameMap, vm_remove_fileid2name_map, SyscallInfo, Tid2syscallMap}
use hv_sebek.Tracking.Rows.{rows_of}
use hv_sebek.Tracking.Lookup.{Unique}
use hv_sebek.Tracking.Names.{fid_of, tid_of, vm_remove_fileid2name_map-rows}
use hv_sebek.Intercept.{Guest, skip_intercpt_cur_instr, handle_debug_exception}
use hv_sebek.Intercept.Flags.{asked}
use hv_sebek.Intercept.Skip.{handle_debug_exception-skip}

-- Row `i` has number `i` but for row 3, which has number 2 again.
abbrev files : Table Fid2nameMap
files = record {
  row = λ i. record { fid = if i == 3 then 2 else i; fname = (65 + i) ∷ 0 ∷ [] };
  used = 4;
}

-- The first three of them.
abbrev standard : Table Fid2nameMap
standard = record files { used = 3 }

vm_remove_fileid2name_map-rows_example :
    rows_of (vm_remove_fileid2name_map files 2)
    ≡ record { fid = 0; fname = 65 ∷ 0 ∷ [] }
      ∷ record { fid = 1; fname = 66 ∷ 0 ∷ [] }
      ∷ record { fid = 2; fname = 68 ∷ 0 ∷ [] }
      ∷ []
vm_remove_fileid2name_map-rows_example = vm_remove_fileid2name_map-rows files 2

standard-Unique : Unique fid_of (rows_of standard)
standard-Unique =
    ((λ e. omega (arith, e), (λ e. omega (arith, e), tt)), ((λ e. omega (arith, e), tt), (tt, tt)))

-- Two rows of number 7.
abbrev twice : Table Fid2nameMap
twice = record { row = λ i. record { fid = 7; fname = (65 + i) ∷ 0 ∷ [] }; used = 2 }

abbrev long_name : List ℕ
long_name =
    97 ∷ 98 ∷ 99 ∷ 100 ∷ 101 ∷ 102 ∷ 103 ∷ 104 ∷ 105 ∷ 106 ∷ 107 ∷ 108 ∷ 109 ∷ 110 ∷ 111 ∷ 112 ∷ 113
    ∷ 114 ∷ 115 ∷ 116 ∷ 117 ∷ []

abbrev read_call : SyscallInfo
read_call = record { syscallno = 3; arg = 0x8000; datasize = 0; socketno = 0 }

abbrev waiting : Table Tid2syscallMap
waiting = record { row = λ i. record { tid = 100 + i; info = read_call }; used = 2 }

waiting-Unique : Unique tid_of (rows_of waiting)
waiting-Unique = ((λ e. omega (arith, e), tt), (tt, tt))

-- A guest of which INTn is intercepted.
abbrev guest : Guest
guest = record {
  cr_intercepts = 0;
  exception_intercepts = 0;
  general1_intercepts = 2 ^ 21;
  rflags = 2;
  cr3 = 0x1000;
  mem = λ a. 0x67;
  itc_flag = 4;
  itc_skip_flag = 0;
  btrackcurrent = 0;
}

handle_debug_exception-skip_example :
    ((handle_debug_exception (skip_intercpt_cur_instr guest 8)).itc_skip_flag ≡ 0)
    × (bit (handle_debug_exception (skip_intercpt_cur_instr guest 8)).exception_intercepts 20
        ≡ bit 0 20)
    × (bit (handle_debug_exception (skip_intercpt_cur_instr guest 8)).general1_intercepts 20
        ≡ (if asked 8 3 then 1 else bit (2 ^ 21) 20))
    × (bit (handle_debug_exception (skip_intercpt_cur_instr guest 8)).cr_intercepts 20 ≡ bit 0 20)
    × (bit (handle_debug_exception (skip_intercpt_cur_instr guest 8)).rflags 20 ≡ bit 2 20)
handle_debug_exception-skip_example =
    handle_debug_exception-skip guest 8 refl (λ e. omega (arith, e)) refl 20 (omega arith)
