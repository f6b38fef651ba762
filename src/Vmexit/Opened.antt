-- ===== src/Vmexit/Opened.antt =====
-- A file from the call that opens it to its name in later reports, in kernel/intercept.c.
use hv_sebek.Base.{
  ℕ, ◌+◌, ◌-◌, ◌^◌, ◌≡◌, ◌≢◌, refl, arith, true, false, [], ◌∷◌, ◌++◌, ◌==◌, u32, take, ap, inl,
  inr, Bool-cases, some, none, bit_and, String,
}
use hv_sebek.Base.Run.{ok}
use hv_sebek.Tracking.{
  Table, Fid2nameMap, SyscallInfo, vm_get_fname_from_id, vm_add_fileid2name_map,
  vm_get_waiting_syscall, vm_add_waiting_thread, vm_remove_waiting_thread,
}
use hv_sebek.Tracking.Names.{vm_get_fname_from_id-add, vm_get_waiting_syscall-add}
use hv_sebek.Vmexit.{Vm, Kept, hex, at, text, name, outf, no_address, hphysic}
use hv_sebek.Vmexit.Calls.Table.{SyscallEntry, entry_at, sys_name}
use hv_sebek.Vmexit.Calls.Table.First.{first_syscalls}
use hv_sebek.Vmexit.Calls.Dispatch.{
  Stack, syscalls, syscall_cases, syscall_handler, wait_anyway, trap_return, handle_syscall,
}
use hv_sebek.Vmexit.Task.{get_cur_threadid}
use hv_sebek.Vmexit.Calls.Files.{wait_in, sys_open, sys_open_iret, sys_close, bytes_from}
use hv_sebek.Vmexit.Total.Exits.{length-bytes_from}
use hv_sebek.Intercept.{skip_intercpt_cur_instr}
use hv_sebek.Vmexit.Handlers.{handle_iret, end_waiting, iret_of, syscall_returns}

-- A line of a call: its beginning, with the name, and its end.
begin_call : String → Kept → Kept
begin_call call k = outf k ">> %s( " (name call ∷ [])

end_call : Kept → Kept
end_call k = outf k " )\n" []

-- The calls in the table.
open_entry : (e : SyscallEntry) × (entry_at syscalls 5 ≡ ok e) × (sys_name e ≡ "open")
unfolding syscalls first_syscalls entry_at
open_entry = (_, refl, refl)

close_entry : (e : SyscallEntry) × (entry_at syscalls 6 ≡ ok e) × (sys_name e ≡ "close")
unfolding syscalls first_syscalls entry_at
close_entry = (_, refl, refl)

module _ (fuel : ℕ) (stack : Stack) (vm : Vm) (k k' k'' : Kept) where
  -- From the handler of a call to the whole.
  open_handled :
      u32 vm.rax ≡ 5
      → sys_open stack.info vm (begin_call "open" k) ≡ ok k'
      → wait_anyway stack vm k' ≡ ok k''
      → handle_syscall fuel stack vm k
        ≡ ok (record vm { guest = trap_return vm.guest }, end_call k'')
  unfolding handle_syscall syscall_handler syscall_cases begin_call end_call
  open_handled five opens waits =
      let (e, found, named) = open_entry in rw (five, found, named, opens, waits) refl

  close_handled :
      u32 vm.rax ≡ 6
      → sys_close vm (begin_call "close" k) ≡ ok k'
      → wait_anyway stack vm k' ≡ ok k''
      → handle_syscall fuel stack vm k
        ≡ ok (record vm { guest = trap_return vm.guest }, end_call k'')
  unfolding handle_syscall syscall_handler syscall_cases begin_call end_call
  close_handled six closes waits =
      let (e, found, named) = close_entry in rw (six, found, named, closes, waits) refl

module _ (fuel : ℕ) (stack : Stack) (vm vm2 vm4 : Vm) (k : Kept) (name_hp tid tid4 : ℕ)
    (opening : u32 vm.rax ≡ 5) (closing : u32 vm4.rax ≡ 6)
    (name_found : hphysic vm vm.ds vm.regs.g_rbx ≡ ok name_hp) (named : name_hp ≢ no_address)
    (thread : (k' : Kept) → get_cur_threadid vm 3 k' ≡ ok (k', tid))
    (same : (k' : Kept) → get_cur_threadid vm2 0 k' ≡ ok (k', tid))
    (thread4 : (k' : Kept) → get_cur_threadid vm4 3 k' ≡ ok (k', tid4))
    (first : vm_get_waiting_syscall k.syscallmap tid ≡ none)
    (new : vm_get_fname_from_id k.fmap (u32 vm2.rax) ≡ none)
    (later : u32 vm4.regs.g_rbx ≡ u32 vm2.rax) where
  info : SyscallInfo
  info = record stack.info { syscallno = 5; arg = name_hp }

  reported : Kept
  reported = outf (begin_call "open" k) "filename: %s, flags: %x, mode: %x" (
      at name_hp
      ∷ hex (bit_and vm.regs.g_rcx (2 ^ 16 - 1))
      ∷ hex (bit_and vm.regs.g_rdx (2 ^ 16 - 1))
      ∷ [])

  waiting_state : Kept
  unfolding reported
  waiting_state = record reported { syscallmap = vm_add_waiting_thread k.syscallmap tid info }

  opened_state : Kept
  unfolding waiting_state
  opened_state = end_call waiting_state

  opens : sys_open stack.info vm (begin_call "open" k) ≡ ok waiting_state
  unfolding sys_open wait_in waiting_state reported info begin_call
  opens =
      let miss : (name_hp == no_address) ≡ false = ground (arith, named) in
      rw (name_found, miss, thread)

  waits_already : wait_anyway stack vm waiting_state ≡ ok waiting_state
  unfolding wait_anyway waiting_state reported begin_call vm_add_waiting_thread
  waits_already =
      let some_wait : (k.syscallmap.used + 1 == 0) ≡ false = ground arith in rw some_wait

  waits : vm_get_waiting_syscall opened_state.syscallmap tid ≡ some info
  unfolding opened_state waiting_state reported begin_call end_call
  waits =
      let self : (tid == tid) ≡ true = ground arith in
      rw (vm_get_waiting_syscall-add k.syscallmap tid info tid, first, self)

  module _ (fmap' : Table Fid2nameMap)
      (added : vm_add_fileid2name_map k.fmap (u32 vm2.rax) (bytes_from 20 vm2.guest.mem name_hp)
        ≡ ok fmap') where
    returned_state : Kept
    unfolding opened_state
    returned_state = record opened_state {
      fmap = fmap';
      syscallmap = vm_remove_waiting_thread opened_state.syscallmap tid;
    }

    ends : end_waiting vm2 opened_state ≡ ok returned_state
    unfolding end_waiting iret_of syscall_returns sys_open_iret opened_state waiting_state reported
        returned_state info vm_add_waiting_thread begin_call end_call
    ends =
        let some_wait : (k.syscallmap.used + 1 == 0) ≡ false = ground arith in
        rw (some_wait, same, waits, added)

  -- The call that closes lets its thread wait, where no other does; nothing is reported for that.
  waits_for_close :
      (k' : Kept) → (k'' : Kept) × (wait_anyway stack vm4 k' ≡ ok k'') × (k''.log ≡ k'.log)
  unfolding wait_anyway wait_in
  waits_for_close k' = elim (Bool-cases (k'.syscallmap.used == 0)) [
    | inl nobody ↦ (
      record k' {
        syscallmap = vm_add_waiting_thread k'.syscallmap tid4 (record stack.info { syscallno = 0 });
      },
      rw (nobody, thread4) refl,
      refl,
    )
    | inr somebody ↦ (k', rw somebody, refl)
  ]

  -- A thread that waits in no call opens a file whose name can be found: the handler of system
  -- calls returns. So does the handler of the `iret` with which the thread returns from the call,
  -- with a number under which no file is known; and a later call that closes the number is
  -- handled, and reports the first 19 bytes that stood at the name at the return.
  pub sys_open-close :
      (opened : Kept) × (vm3 : Vm) × (returned : Kept) × (vm5 : Vm) × (closed : Kept)
      × (handle_syscall fuel stack vm k ≡ ok (record vm { guest = trap_return vm.guest }, opened))
      × (handle_iret vm2 opened ≡ ok (vm3, returned))
      × (handle_syscall fuel stack vm4 returned ≡ ok (vm5, closed))
      × (closed.log
          ≡ record { format = " )\n"; args = [] }
            ∷ record {
              format = "filename: %s";
              args = text (take 19 (bytes_from 20 vm2.guest.mem name_hp) ++ 0 ∷ []) ∷ [];
            }
            ∷ record { format = ">> %s( "; args = name "close" ∷ [] }
            ∷ returned.log)
  unfolding handle_iret
  sys_open-close =
      let bytes = bytes_from 20 vm2.guest.mem name_hp in
      let (fmap', added, lookup) =
        vm_get_fname_from_id-add k.fmap (u32 vm2.rax) bytes
          (ground (arith, length-bytes_from 20 vm2.guest.mem name_hp)) in
      let returned = returned_state fmap' added in
      let vm3 : Vm = record vm2 { guest = skip_intercpt_cur_instr vm2.guest 8 } in
      let self : (u32 vm2.rax == u32 vm2.rax) ≡ true = ground arith in
      let found : vm_get_fname_from_id fmap' (u32 vm4.regs.g_rbx) ≡ some (take 19 bytes ++ 0 ∷ []) =
        rw (later, lookup (u32 vm2.rax), new, self) in
      let line = text (take 19 bytes ++ 0 ∷ []) ∷ [] in
      let told = outf (begin_call "close" returned) "filename: %s" line in
      let (k'', waited, silent) = waits_for_close told in
      let closes : sys_close vm4 (begin_call "close" returned) ≡ ok told =
        unfold sys_close begin_call returned_state opened_state waiting_state end_call in
        rw found in
      (
        opened_state,
        vm3,
        returned,
        record vm4 { guest = trap_return vm4.guest },
        end_call k'',
        unfold opened_state in
            open_handled fuel stack vm k waiting_state waiting_state opening opens waits_already,
        rw (ends fmap' added),
        close_handled fuel stack vm4 returned told k'' closing closes waited,
        unfold end_call begin_call in ap (λ l. record { format = " )\n"; args = [] } ∷ l) silent,
      )
