-- ===== src/Tracking/Names.antt =====
-- The open files and the waiting threads of kernel/vm.c: what is found after a row has been added
-- or removed.
use hv_sebek.Base.{
  ℕ, ◌≤◌, ◌≡◌, ◌≢◌, refl, ap, ◌∙◌, arith, Bool, true, false, List, [], ◌∷◌, ◌++◌, leb, ◌==◌, Option,
  none, some, length, take,
}
use hv_sebek.Base.Run.{ok}
use hv_sebek.Tracking.{
  Table, add_row, remove_from, Fid2nameMap, vm_add_fileid2name_map, vm_remove_fileid2name_map,
  vm_get_fname_from_id, fname_of, info_of, SyscallInfo, Tid2syscallMap, vm_add_waiting_thread,
  vm_remove_waiting_thread, vm_get_waiting_syscall,
}
use hv_sebek.Tracking.Rows.{rows_of, removed, found}
use hv_sebek.Tracking.Lookup.{
  or_else, Unique, found-removed, found-removed_other, find-rows, remove-rows, find-add_row,
}

abbrev pub fid_of : Fid2nameMap → ℕ
fid_of e = e.fid

abbrev pub tid_of : Tid2syscallMap → ℕ
tid_of e = e.tid

-- The rows that a removal leaves are those of the list without the ones that have the number,
-- except that the row behind one that is removed always stays.
pub vm_remove_fileid2name_map-rows :
    (fmap : Table Fid2nameMap) (id : ℕ)
    → rows_of (vm_remove_fileid2name_map fmap id) ≡ removed fid_of false id (rows_of fmap)
unfolding vm_remove_fileid2name_map
vm_remove_fileid2name_map-rows fmap id = remove-rows fid_of id fmap

get_fname-found :
    (fmap : Table Fid2nameMap) (id : ℕ)
    → vm_get_fname_from_id fmap id ≡ fname_of (found fid_of id (rows_of fmap))
unfolding vm_get_fname_from_id
get_fname-found fmap id = ap fname_of (find-rows fid_of id fmap)

get_syscall-found :
    (syscallmap : Table Tid2syscallMap) (tid : ℕ)
    → vm_get_waiting_syscall syscallmap tid ≡ info_of (found tid_of tid (rows_of syscallmap))
unfolding vm_get_waiting_syscall
get_syscall-found syscallmap tid = ap info_of (find-rows tid_of tid syscallmap)

-- In a table without two rows of one number, a removed file has no name afterwards, and every
-- other file has the name that it had.
pub vm_get_fname_from_id-remove :
    (fmap : Table Fid2nameMap) (id : ℕ)
    → Unique fid_of (rows_of fmap)
    → (vm_get_fname_from_id (vm_remove_fileid2name_map fmap id) id ≡ none)
      × ((other : ℕ)
          → other ≢ id
          → vm_get_fname_from_id (vm_remove_fileid2name_map fmap id) other
            ≡ vm_get_fname_from_id fmap other)
vm_get_fname_from_id-remove fmap id unique =
    let t' = vm_remove_fileid2name_map fmap id in
    let rows = vm_remove_fileid2name_map-rows fmap id in
    let gone = found-removed fid_of id (rows_of fmap) unique in
    (
      rw (get_fname-found t' id, rows, gone),
      λ other ne. rw (
        get_fname-found t' other,
        rows,
        get_fname-found fmap other,
        found-removed_other fid_of id other (rows_of fmap) ne unique,
      ),
    )

-- Of two neighbouring rows of one number at the front, a removal leaves the second: the file still
-- has a name.
pub vm_remove_fileid2name_map_neighbour :
    (fmap : Table Fid2nameMap) (a b : Fid2nameMap) (l : List Fid2nameMap)
    → rows_of fmap ≡ a ∷ b ∷ l
    → a.fid ≡ b.fid
    → vm_get_fname_from_id (vm_remove_fileid2name_map fmap b.fid) b.fid ≡ some b.fname
vm_remove_fileid2name_map_neighbour fmap a b l rows same =
    let t' = vm_remove_fileid2name_map fmap b.fid in
    let hit : (a.fid == b.fid) ≡ true = ground (arith, same) in
    let self : (b.fid == b.fid) ≡ true = ground arith in
    rw (get_fname-found t' b.fid, vm_remove_fileid2name_map-rows fmap b.fid, rows, hit, self)

fname_of-or_else :
    (o : Option Fid2nameMap) (here : Bool) (e : Fid2nameMap)
    → fname_of (or_else o here e) ≡ or_else (fname_of o) here e.fname
fname_of-or_else (some old) here e = refl
fname_of-or_else none true e = refl
fname_of-or_else none false e = refl

info_of-or_else :
    (o : Option Tid2syscallMap) (here : Bool) (e : Tid2syscallMap)
    → info_of (or_else o here e) ≡ or_else (info_of o) here e.info
info_of-or_else (some old) here e = refl
info_of-or_else none true e = refl
info_of-or_else none false e = refl

-- Where the name can be read, a file that is added has the first 19 bytes of it as its name
-- afterwards, unless a row of its number was there, whose name it then has; every other file has
-- the name that it had.
pub vm_get_fname_from_id-add :
    (fmap : Table Fid2nameMap) (id : ℕ) (name : List ℕ)
    → 20 ≤ length name
    → (fmap' : Table Fid2nameMap) × (vm_add_fileid2name_map fmap id name ≡ ok fmap')
      × ((file : ℕ)
          → vm_get_fname_from_id fmap' file
            ≡ or_else (vm_get_fname_from_id fmap file) (id == file) (take 19 name ++ 0 ∷ []))
unfolding vm_add_fileid2name_map
vm_get_fname_from_id-add fmap id name long =
    let enough : leb 20 (length name) ≡ true = ground arith in
    let e : Fid2nameMap = record { fid = id; fname = take 19 name ++ 0 ∷ [] } in
    let t' = add_row fmap e in
    (
      t',
      rw enough,
      λ file.
          rw (get_fname-found t' file, get_fname-found fmap file)
            (ap fname_of (find-add_row fid_of file fmap e)
              ∙ fname_of-or_else (found fid_of file (rows_of fmap)) (id == file) e),
    )

-- A thread that is added has the call that is given as the one it waits in, unless a row of its
-- number was there, whose call it then has; every other thread has the call that it had.
pub vm_get_waiting_syscall-add :
    (syscallmap : Table Tid2syscallMap) (tid : ℕ) (info : SyscallInfo) (thread : ℕ)
    → vm_get_waiting_syscall (vm_add_waiting_thread syscallmap tid info) thread
      ≡ or_else (vm_get_waiting_syscall syscallmap thread) (tid == thread) info
unfolding vm_add_waiting_thread
vm_get_waiting_syscall-add syscallmap tid info thread =
    let e : Tid2syscallMap = record { tid = tid; info = info } in
    let t' = add_row syscallmap e in
    rw (get_syscall-found t' thread, get_syscall-found syscallmap thread)
      (ap info_of (find-add_row tid_of thread syscallmap e)
        ∙ info_of-or_else (found tid_of thread (rows_of syscallmap)) (tid == thread) e)

-- In a table without two rows of one number, a removed thread waits in no call afterwards, and
-- every other thread in the call that it waited in.
pub vm_get_waiting_syscall-remove :
    (syscallmap : Table Tid2syscallMap) (tid : ℕ)
    → Unique tid_of (rows_of syscallmap)
    → (vm_get_waiting_syscall (vm_remove_waiting_thread syscallmap tid) tid ≡ none)
      × ((other : ℕ)
          → other ≢ tid
          → vm_get_waiting_syscall (vm_remove_waiting_thread syscallmap tid) other
            ≡ vm_get_waiting_syscall syscallmap other)
unfolding vm_remove_waiting_thread
vm_get_waiting_syscall-remove syscallmap tid unique =
    let t' = remove_from tid_of syscallmap.used 0 tid syscallmap in
    let rows = remove-rows tid_of tid syscallmap in
    let gone = found-removed tid_of tid (rows_of syscallmap) unique in
    (
      rw (get_syscall-found t' tid, rows, gone),
      λ other ne. rw (
        get_syscall-found t' other,
        rows,
        get_syscall-found syscallmap other,
        found-removed_other tid_of tid other (rows_of syscallmap) ne unique,
      ),
    )
