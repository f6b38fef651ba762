-- ===== src/Tracking.antt =====
-- The tables that kernel/vm.c keeps of a guest: the names of its open files and the threads that
-- wait in a system call, with `struct fid2name_map`, `struct tid2syscall_map` and
-- `struct syscall_info` of include/vm.h.
pub mod Rows
pub mod Lookup
pub mod Names
pub mod Processes
use hv_sebek.Base.{
  ℕ, zero, suc, ◌+◌, ◌-◌, Bool, List, [], ◌∷◌, ◌++◌, ltb, ◌==◌, if◌then◌else◌, Option, none, some,
  take, length, leb,
}
use hv_sebek.Base.Run.{Run, ok, fault, ◌>>=◌}

-- A table in a page of its own: its rows by index, and how many of them are in use. The code does
-- not ask whether a row is still inside the page.
pub record Table {ℓ} (A : Type ℓ) : Type ℓ where
  pub row : ℕ → A
  pub used : ℕ

abbrev pub set_row {ℓ} : {A : Type ℓ} → (ℕ → A) → ℕ → A → ℕ → A
set_row rows i a j = if j == i then a else rows j

abbrev pub add_row {ℓ} : {A : Type ℓ} → Table A → A → Table A
add_row t a = record { row = set_row t.row t.used a; used = t.used + 1 }

-- `for (; j < used; j++) memcpy(cur, next, sizeof ...)`, over the rounds that are left.
unfoldable pub shift_rows {ℓ} : {A : Type ℓ} → ℕ → ℕ → (ℕ → A) → ℕ → A
shift_rows zero j rows = rows
shift_rows (suc rounds) j rows = shift_rows rounds (j + 1) (set_row rows j (rows (j + 1)))

-- The loops over a table, from row `i` on; each ends after as many rounds as rows are in use.
-- A removal goes on behind the row that has been filled by the next one.
module _ {ℓ} {A : Type ℓ} (key : A → ℕ) where
  unfoldable pub remove_from : ℕ → ℕ → ℕ → Table A → Table A
  unfolding shift_rows
  remove_from zero i id t = t
  remove_from (suc rounds) i id t =
      let left = t.used - 1 in
      let shifted : Table A = record { row = shift_rows (left - i) i t.row; used = left } in
      let next : Table A = if key (t.row i) == id then shifted else t in
      let rest = remove_from rounds (i + 1) id next in if ltb i t.used then rest else t

  unfoldable pub find_from : ℕ → ℕ → ℕ → Table A → Option A
  find_from zero i id t = none
  find_from (suc rounds) i id t =
      let rest = find_from rounds (i + 1) id t in
      if key (t.row i) == id then some (t.row i) else rest

pub record Fid2nameMap : Type 0 where
  pub fid : ℕ
  pub fname : List ℕ

abbrev pub vm_max_filename : ℕ
vm_max_filename = 20

-- `fid` and `tid` are read as the 32 bits of an `int`. Of `name`, the bytes from the pointer on
-- are given: as many are copied as a row holds, and the last is then 0.
unfoldable pub vm_add_fileid2name_map : Table Fid2nameMap → ℕ → List ℕ → Run (Table Fid2nameMap)
vm_add_fileid2name_map fmap id name =
    if leb vm_max_filename (length name)
    then ok (add_row fmap (record { fid = id; fname = take (vm_max_filename - 1) name ++ 0 ∷ [] }))
    else fault

unfoldable pub vm_remove_fileid2name_map : Table Fid2nameMap → ℕ → Table Fid2nameMap
vm_remove_fileid2name_map fmap id = remove_from (λ (e : Fid2nameMap). e.fid) fmap.used 0 id fmap

-- `return entry->fname`, and `NULL` after the loop.
abbrev pub fname_of : Option Fid2nameMap → Option (List ℕ)
fname_of none = none
fname_of (some entry) = some entry.fname

unfoldable pub vm_get_fname_from_id : Table Fid2nameMap → ℕ → Option (List ℕ)
vm_get_fname_from_id fmap id = fname_of (find_from (λ (e : Fid2nameMap). e.fid) fmap.used 0 id fmap)

pub record SyscallInfo : Type 0 where
  pub syscallno : ℕ
  pub arg : ℕ
  pub datasize : ℕ
  pub socketno : ℕ

pub record Tid2syscallMap : Type 0 where
  pub tid : ℕ
  pub info : SyscallInfo

unfoldable pub vm_add_waiting_thread : Table Tid2syscallMap → ℕ → SyscallInfo → Table Tid2syscallMap
vm_add_waiting_thread syscallmap tid info = add_row syscallmap (record { tid = tid; info = info })

unfoldable pub vm_remove_waiting_thread : Table Tid2syscallMap → ℕ → Table Tid2syscallMap
vm_remove_waiting_thread syscallmap tid =
    remove_from (λ (e : Tid2syscallMap). e.tid) syscallmap.used 0 tid syscallmap

abbrev pub info_of : Option Tid2syscallMap → Option SyscallInfo
info_of none = none
info_of (some entry) = some entry.info

unfoldable pub vm_get_waiting_syscall : Table Tid2syscallMap → ℕ → Option SyscallInfo
vm_get_waiting_syscall syscallmap tid =
    info_of (find_from (λ (e : Tid2syscallMap). e.tid) syscallmap.used 0 tid syscallmap)
