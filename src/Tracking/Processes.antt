-- ===== src/Tracking/Processes.antt =====
-- The list of tracked processes in kernel/vm.c. Its slots of 20 bytes hold texts; a row is the text
-- of its slot.
use hv_sebek.Base.{ℕ, zero, suc, ◌+◌, ◌-◌, List, ◌==◌, if◌then◌else◌}
use hv_sebek.Base.Run.{Run, ok, ◌>>=◌}
use hv_sebek.CString.{strcmp}
use hv_sebek.Tracking.{Table, add_row, shift_rows}

abbrev pub vm_max_pname_len : ℕ
vm_max_pname_len = 20

-- Every process counts as tracked: the search of the list stands behind the `return`.
abbrev pub vm_is_process_tracked : ℕ
vm_is_process_tracked = 1

unfoldable pub vm_add_tracked_process : Table (List ℕ) → List ℕ → Table (List ℕ)
vm_add_tracked_process ptracked pname =
    if vm_is_process_tracked == 0 then add_row ptracked pname else ptracked

-- The loop of `vm_remove_tracked_process`, which ends at the first slot with the name.
unfoldable pub remove_tracked_from : ℕ → ℕ → List ℕ → Table (List ℕ) → Run (Table (List ℕ))
remove_tracked_from zero i pname ptracked = ok ptracked
remove_tracked_from (suc rounds) i pname ptracked =
    let left = ptracked.used - 1 in
    let shifted : Table (List ℕ) = record {
      row = shift_rows (left - i) i ptracked.row;
      used = left;
    } in
    let rest = remove_tracked_from rounds (i + 1) pname ptracked in
    (strcmp (ptracked.row i) pname >>= λ differs. if differs == 0 then ok shifted else rest)

unfoldable pub vm_remove_tracked_process : Table (List ℕ) → List ℕ → Run (Table (List ℕ))
vm_remove_tracked_process ptracked pname = remove_tracked_from ptracked.used 0 pname ptracked
