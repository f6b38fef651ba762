-- ===== src/Vmcs/Entries.antt =====
-- The areas of model-specific registers of an Intel guest in kernel/vmcs.c. An entry of 16 bytes
-- holds `index` and `mbz` in its first word and `data` in its second.
use hv_sebek.Base.{
  ℕ, zero, suc, ◌+◌, ◌*◌, ◌/◌, Option, none, some, ◌==◌, if◌then◌else◌, [], ◌∷◌, Words, update, u32,
}
use hv_sebek.Base.Run.{Run, ok, ◌>>=◌}
use hv_sebek.Alloc.{alloc_host_pages}
use hv_sebek.Page.{page_size}
use hv_sebek.Vmcs.{IntelGuest}
use hv_sebek.Vmcs.Fields.{
  vm_exit_msr_store_addr, vm_entry_msr_load_addr, vm_exit_msr_store_count, vm_entry_msr_load_count,
  vm_exit_msr_load_addr, vm_exit_msr_load_count,
}
use hv_sebek.Vmcs.Write.{vmwrite, vmwrites}

-- The addresses of the two words of an entry.
abbrev pub msr_entry_at : ℕ → ℕ → ℕ
msr_entry_at msr_area i = msr_area + 16 * i

abbrev pub msr_data_at : ℕ → ℕ → ℕ
msr_data_at msr_area i = msr_area + 16 * i + 8

-- The loops over the entries, from `i` on with so many rounds left.
unfoldable pub find_msr : Words → ℕ → ℕ → ℕ → ℕ → Option ℕ
find_msr mem msr_area msr zero i = none
find_msr mem msr_area msr (suc rounds) i =
    let rest = find_msr mem msr_area msr rounds (i + 1) in
    if u32 (mem (msr_entry_at msr_area i)) == msr then some i else rest

-- `none` is the result `-1`.
unfoldable pub vmx_read_guest_msr : IntelGuest → ℕ → Option ℕ
vmx_read_guest_msr vm msr = elim (find_msr vm.host.mem vm.msr_area msr vm.msr_count 0) [
  | none ↦ none
  | some i ↦ some (vm.host.mem (msr_data_at vm.msr_area i))
]

-- A guest with other memory.
abbrev pub with_mem : IntelGuest → Words → IntelGuest
with_mem vm mem = record vm { host = record vm.host { mem = mem } }

unfoldable pub vmx_write_guest_msr : IntelGuest → ℕ → ℕ → Option IntelGuest
vmx_write_guest_msr vm msr val = elim (find_msr vm.host.mem vm.msr_area msr vm.msr_count 0) [
  | none ↦ none
  | some i ↦ some (with_mem vm (update vm.host.mem (msr_data_at vm.msr_area i) val))
]

-- What `vmx_add_guest_msr` and `vmx_add_host_load_msr` return.
pub data Added : Type 0 where
  added : Added
  area_full : Added
  no_area : Added

-- A new entry behind `n` others.
unfoldable pub new_entry : Words → ℕ → ℕ → ℕ → ℕ → Words
new_entry mem msr_area n msr val =
    update (update mem (msr_entry_at msr_area n) msr) (msr_data_at msr_area n) val

-- The part of `vmx_add_guest_msr` behind the allocation.
unfoldable pub add_guest_entry : IntelGuest → ℕ → Added × IntelGuest
unfolding new_entry
add_guest_entry vm msr =
    let n = vm.msr_count in
    let more : IntelGuest = record vm {
      msr_count = n + 1;
      host = record vm.host { mem = new_entry vm.host.mem vm.msr_area n msr 0 };
      fields =
          vmwrites ((vm_exit_msr_store_count, n + 1) ∷ (vm_entry_msr_load_count, n + 1) ∷ [])
            vm.fields;
    } in
    elim (find_msr vm.host.mem vm.msr_area msr n 0) [
      | none ↦ if n == page_size / 16 then (area_full, vm) else (added, more)
      | some i ↦ (added, vm)
    ]

-- The result of `alloc_host_pages` is taken as an address, as it is.
unfoldable pub vmx_add_guest_msr : IntelGuest → ℕ → Run (Added × IntelGuest)
unfolding add_guest_entry
vmx_add_guest_msr vm msr =
    let fresh = alloc_host_pages 1 1 vm.host.nalloc >>= λ (pfn, nalloc).
    (let area : IntelGuest = record vm {
      msr_area = pfn;
      host = record vm.host { nalloc = nalloc };
      fields =
          vmwrites ((vm_exit_msr_store_addr, pfn) ∷ (vm_entry_msr_load_addr, pfn) ∷ []) vm.fields;
    } in
      let none_left : IntelGuest = record vm { host = record vm.host { nalloc = nalloc } } in
      ok (if pfn == 0 then (no_area, none_left) else add_guest_entry area msr)) in
    if vm.msr_area == 0 then fresh else ok (add_guest_entry vm msr)

-- The same for the registers of the host, whose values are read now.
unfoldable pub add_host_entry : Words → IntelGuest → ℕ → Added × IntelGuest
unfolding new_entry
add_host_entry msrs vm msr =
    let n = vm.host_msr_count in
    let more : IntelGuest = record vm {
      host_msr_count = n + 1;
      host = record vm.host { mem = new_entry vm.host.mem vm.host_msr_area n msr (msrs msr) };
      fields = vmwrite vm_exit_msr_load_count (n + 1) vm.fields;
    } in
    elim (find_msr vm.host.mem vm.host_msr_area msr n 0) [
      | none ↦ if n == page_size / 16 then (area_full, vm) else (added, more)
      | some i ↦ (added, vm)
    ]

unfoldable pub vmx_add_host_load_msr : Words → IntelGuest → ℕ → Run (Added × IntelGuest)
unfolding add_host_entry
vmx_add_host_load_msr msrs vm msr =
    let fresh = alloc_host_pages 1 1 vm.host.nalloc >>= λ (pfn, nalloc).
    (let area : IntelGuest = record vm {
      host_msr_area = pfn;
      host = record vm.host { nalloc = nalloc };
      fields = vmwrite vm_exit_msr_load_addr pfn vm.fields;
    } in
      let none_left : IntelGuest = record vm { host = record vm.host { nalloc = nalloc } } in
      ok (if pfn == 0 then (no_area, none_left) else add_host_entry msrs area msr)) in
    if vm.host_msr_area == 0 then fresh else ok (add_host_entry msrs vm msr)
