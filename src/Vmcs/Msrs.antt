-- ===== src/Vmcs/Msrs.antt =====
-- Adding, writing and reading a register of an Intel guest: kernel/vmcs.c.
use hv_sebek.Base.{
  ℕ, zero, suc, ◌+◌, ◌/◌, ◌^◌, ◌<◌, ◌≤◌, ◌≡◌, ◌≢◌, ◌∙◌, sym, ap, subst, refl, arith, true, false,
  Option, none, some, ◌==◌, [], ◌∷◌, Words, update, u32, Bool-cases, ◌⊎◌, inl, inr,
}
use hv_sebek.Base.Run.{ok}
use hv_sebek.Page.{page_size}
use hv_sebek.Vmcs.{IntelGuest}
use hv_sebek.Vmcs.Fields.{vm_exit_msr_store_count, vm_entry_msr_load_count}
use hv_sebek.Vmcs.Write.{vmwrites}
use hv_sebek.Vmcs.Entries.{
  msr_entry_at, msr_data_at, find_msr, vmx_read_guest_msr, with_mem, vmx_write_guest_msr, added,
  new_entry, add_guest_entry, vmx_add_guest_msr,
}

Option-cases : (o : Option ℕ) → (o ≡ none) ⊎ ((i : ℕ) × (o ≡ some i))
Option-cases none = inl refl
Option-cases (some i) = inr (i, refl)

some-injective : {i j : ℕ} → ◌≡◌ {A = Option ℕ} (some i) (some j) → i ≡ j
some-injective h = cc

-- The entries that are searched are the same in both memories.
find_msr_agree :
    (mem mem' : Words) (area msr rounds i : ℕ)
    → ((k : ℕ) → i ≤ k → k < i + rounds → mem (msr_entry_at area k) ≡ mem' (msr_entry_at area k))
    → find_msr mem area msr rounds i ≡ find_msr mem' area msr rounds i
unfolding find_msr
find_msr_agree mem mem' area msr zero i same = refl
find_msr_agree mem mem' area msr (suc rounds) i same = rw (
  same i (omega arith) (omega arith),
  find_msr_agree mem mem' area msr rounds (i + 1) (λ k lo hi. same k (omega arith) (omega arith)),
)

-- With one entry more that is not the register's.
find_msr_other :
    (mem : Words) (area msr rounds i : ℕ)
    → (u32 (mem (msr_entry_at area (i + rounds))) == msr) ≡ false
    → find_msr mem area msr (suc rounds) i ≡ find_msr mem area msr rounds i
unfolding find_msr
find_msr_other mem area msr zero i other =
    let start : i + 0 ≡ i = omega arith in rw (rw start at other)
find_msr_other mem area msr (suc rounds) i other =
    let here : i + suc rounds ≡ i + 1 + rounds = omega arith in
    let next = find_msr_other mem area msr rounds (i + 1) (rw here at other) in rw next

-- With one entry more that is the register's, where no other is.
find_msr_last :
    (mem : Words) (area msr rounds i : ℕ)
    → (u32 (mem (msr_entry_at area (i + rounds))) == msr) ≡ true
    → find_msr mem area msr rounds i ≡ none
    → find_msr mem area msr (suc rounds) i ≡ some (i + rounds)
unfolding find_msr
find_msr_last mem area msr zero i hit missed =
    let start : i + 0 ≡ i = omega arith in rw (rw start at hit, start) refl
find_msr_last mem area msr (suc rounds) i hit missed =
    let here : i + suc rounds ≡ i + 1 + rounds = omega arith in
    elim (Bool-cases (u32 (mem (msr_entry_at area i)) == msr)) [
      | inl found ↦ absurd (ground (arith, missed, found))
      | inr other ↦
          let later =
            find_msr_last mem area msr rounds (i + 1) (rw here at hit) (rw other at missed) in
          rw (other, here) later
    ]

-- What is found is an entry of the register.
find_msr_sound :
    (mem : Words) (area msr rounds i j : ℕ)
    → find_msr mem area msr rounds i ≡ some j
    → (i ≤ j) × (j < i + rounds) × (u32 (mem (msr_entry_at area j)) ≡ msr)
unfolding find_msr
find_msr_sound mem area msr zero i j found = absurd (cc found)
find_msr_sound mem area msr (suc rounds) i j found =
    elim (Bool-cases (u32 (mem (msr_entry_at area i)) == msr)) [
      | inl hit ↦
          let at : i ≡ j = some-injective (rw hit at found) in
          (
            omega arith,
            omega arith,
            subst (λ k. u32 (mem (msr_entry_at area k)) ≡ msr) at (ground arith),
          )
      | inr other ↦
          let (lo, hi, e) = find_msr_sound mem area msr rounds (i + 1) j (rw other at found) in
          (omega arith, omega arith, e)
    ]

-- A value that is written to one entry.
find_msr-data :
    (mem : Words) (area n msr j val : ℕ)
    → find_msr (update mem (msr_data_at area j) val) area msr n 0 ≡ find_msr mem area msr n 0
find_msr-data mem area n msr j val =
    find_msr_agree (update mem (msr_data_at area j) val) mem area msr n 0 (λ k lo hi. ground arith)

-- The data of an entry that was found.
value_at : Words → ℕ → Option ℕ → Option ℕ
value_at mem area none = none
value_at mem area (some i) = some (mem (msr_data_at area i))

read_value :
    (vm : IntelGuest) (msr : ℕ) (o : Option ℕ)
    → find_msr vm.host.mem vm.msr_area msr vm.msr_count 0 ≡ o
    → vmx_read_guest_msr vm msr ≡ value_at vm.host.mem vm.msr_area o
unfolding vmx_read_guest_msr value_at
read_value vm msr none e = rw (e, vmx_read_guest_msr)
read_value vm msr (some i) e = rw (e, vmx_read_guest_msr)

-- Both memories hold the same data wherever an entry of another register can be found.
value_at_agree :
    (mem mem' : Words) (area n msr : ℕ)
    → ((i : ℕ)
        → i < n
        → u32 (mem (msr_entry_at area i)) ≡ msr
        → mem' (msr_data_at area i) ≡ mem (msr_data_at area i))
    → value_at mem' area (find_msr mem area msr n 0) ≡ value_at mem area (find_msr mem area msr n 0)
unfolding value_at
value_at_agree mem mem' area n msr same = elim (Option-cases (find_msr mem area msr n 0)) [
  | inl missed ↦ rw missed refl
  | inr (i, found) ↦
      let (lo, hi, index) = find_msr_sound mem area msr n 0 i found in
      rw found (ap (λ (v : ℕ). some v) (same i (omega arith) index))
]

module _ (vm : IntelGuest) (msr other : ℕ) (apart : other ≢ msr) where
  -- A guest after the register was added.
  record HasMsr (vm1 : IntelGuest) : Type 0 where
    entry : ℕ
    found : find_msr vm1.host.mem vm1.msr_area msr vm1.msr_count 0 ≡ some entry
    kept : vmx_read_guest_msr vm1 other ≡ vmx_read_guest_msr vm other

  add_guest_entry-HasMsr :
      vm.msr_count < 256
      → msr < 2 ^ 32
      → (vm1 : IntelGuest) × (add_guest_entry vm msr ≡ (added, vm1)) × HasMsr vm1
  unfolding add_guest_entry new_entry vmx_read_guest_msr
  add_guest_entry-HasMsr room word =
      let mem = vm.host.mem in
      let area = vm.msr_area in
      let n = vm.msr_count in
      elim (Option-cases (find_msr mem area msr n 0)) [
        | inl missed ↦
            let mem' = new_entry mem area n msr 0 in
            let more : IntelGuest = record vm {
              msr_count = n + 1;
              host = record vm.host { mem = mem' };
              fields =
                  vmwrites
                    ((vm_exit_msr_store_count, n + 1) ∷ (vm_entry_msr_load_count, n + 1) ∷ [])
                    vm.fields;
            } in
            let not_full : (n == page_size / 16) ≡ false = ground arith in
            let next : n + 1 ≡ suc n = omega arith in
            let same_find : (m : ℕ) → find_msr mem' area m n 0 ≡ find_msr mem area m n 0 =
              λ m. find_msr_agree mem' mem area m n 0 (λ k lo hi. ground arith) in
            let index : u32 (mem' (msr_entry_at area n)) ≡ msr = ground arith in
            let hit : (u32 (mem' (msr_entry_at area n)) == msr) ≡ true = ground arith in
            let miss : (u32 (mem' (msr_entry_at area n)) == other) ≡ false = ground arith in
            let start : 0 + n ≡ n = omega arith in
            let last = find_msr_last mem' area msr n 0 (rw start hit) (same_find msr ∙ missed) in
            let skip = find_msr_other mem' area other n 0 (rw start miss) ∙ same_find other in
            (
              more,
              rw (missed, not_full, add_guest_entry) refl,
              record {
                entry = n;
                found = rw (next, last, start) refl;
                kept = rw next (
                    read_value (record more { msr_count = suc n }) other
                      (find_msr mem area other n 0) skip
                    ∙ value_at_agree mem mem' area n other (λ i lt index. ground arith)
                    ∙ sym (read_value vm other (find_msr mem area other n 0) refl));
              },
            )
        | inr (i, found) ↦
            (vm, rw (found, add_guest_entry) refl, record { entry = i; found = found; kept = refl })
      ]

  written :
      (val : ℕ) (vm1 : IntelGuest)
      → HasMsr vm1
      → (vm2 : IntelGuest) × (vmx_write_guest_msr vm1 msr val ≡ some vm2)
        × (vmx_read_guest_msr vm2 msr ≡ some val)
        × (vmx_read_guest_msr vm2 other ≡ vmx_read_guest_msr vm other)
  unfolding vmx_write_guest_msr value_at
  written val vm1 has =
      let mem = vm1.host.mem in
      let area = vm1.msr_area in
      let n = vm1.msr_count in
      let j = has.entry in
      let mem' = update mem (msr_data_at area j) val in
      let vm2 : IntelGuest = with_mem vm1 mem' in
      let (lo, hi, index) = find_msr_sound mem area msr n 0 j has.found in
      let read = read_value vm2 msr (some j) (find_msr-data mem area n msr j val ∙ has.found) in
      (
        vm2,
        rw (has.found, vmx_write_guest_msr) refl,
        read ∙ ap (λ (v : ℕ). some v) (ground arith),
        read_value vm2 other (find_msr mem area other n 0) (find_msr-data mem area n other j val)
            ∙ value_at_agree mem mem' area n other
                (λ i lt index'. ground (arith, index, index', apart))
            ∙ sym (read_value vm1 other (find_msr mem area other n 0) refl)
            ∙ has.kept,
      )

-- Where the area for the guest's registers is there and has fewer than 256 entries, a register is
-- added, unless it has an entry already; a value that is then written to it is read again, and
-- what is read of another register is as before both.
pub vmx_add_guest_msr-write :
    (vm : IntelGuest) (msr other val : ℕ)
    → 0 < vm.msr_area
    → vm.msr_count < 256
    → msr < 2 ^ 32
    → other ≢ msr
    → (vm1 vm2 : IntelGuest) × (vmx_add_guest_msr vm msr ≡ ok (added, vm1))
      × (vmx_write_guest_msr vm1 msr val ≡ some vm2)
      × (vmx_read_guest_msr vm2 msr ≡ some val)
      × (vmx_read_guest_msr vm2 other ≡ vmx_read_guest_msr vm other)
unfolding vmx_add_guest_msr
vmx_add_guest_msr-write vm msr other val area room word apart =
    let (vm1, add, has) = add_guest_entry-HasMsr vm msr other apart room word in
    let (vm2, write, read, kept) = written vm msr other apart val vm1 has in
    let there : (vm.msr_area == 0) ≡ false = ground arith in
    (vm1, vm2, rw (there, add), write, read, kept)
