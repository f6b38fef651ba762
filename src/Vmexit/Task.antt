-- ===== src/Vmexit/Task.antt =====
-- Which process and thread of the guest is current, in kernel/intercept.c: from the stack pointer,
-- or in user mode from the task register, to Linux's `thread_info` and `task_struct`.
use hv_sebek.Base.{ℕ, [], ◌∷◌, bit_and, ◌==◌, if◌then◌else◌, add64}
use hv_sebek.Base.Run.{Run, ok, fault, ◌>>=◌}
use hv_sebek.Segment.{read64}
use hv_sebek.Vmexit.{Vm, Kept, hex, at, outf, no_address, hphysic, read16}

-- The address of the `task_struct`, with what is reported on the way. Where no address is found for
-- `thread_info`, it is read at -1.
unfoldable pub get_cur_process_taskstruct : Vm → Kept → Run (Kept × ℕ)
get_cur_process_taskstruct vm k = hphysic vm vm.ss (bit_and vm.rsp 0xffffe000) >>= λ thread_info_hp.
    let task_struct_gl = read64 vm.guest.mem thread_info_hp in
    let k' =
      outf k " task_struct_gl = %x, ds = %x, ss = %x"
        (hex task_struct_gl ∷ hex vm.ds ∷ hex vm.ss ∷ []) in
    let translated = hphysic vm vm.ds task_struct_gl >>= λ task_struct_hp.
    ok (if task_struct_hp == 0 then k' else k, task_struct_hp) in
    if thread_info_hp == no_address then fault else translated

unfoldable pub get_cur_process_usermode_taskstruct : Vm → Run ℕ
get_cur_process_usermode_taskstruct vm = hphysic vm vm.tr 0x04 >>= λ esp_hp.
    (if esp_hp == no_address
      then ok no_address
      else (hphysic vm vm.tr 0x08 >>= λ ss_hp.
          (if ss_hp == no_address
            then ok no_address
            else (let esp = read64 vm.guest.mem esp_hp in
                let ss = read16 vm.guest.mem ss_hp in
                (hphysic vm ss (bit_and esp 0xffffe000) >>= λ thread_info_hp.
                (if thread_info_hp == no_address
                  then ok no_address
                  else hphysic vm vm.ds (read64 vm.guest.mem thread_info_hp)))))))

-- In kernel mode (0) from the stack, otherwise from the task register.
unfoldable pub taskstruct_of : Vm → ℕ → Kept → Run (Kept × ℕ)
taskstruct_of vm mode k =
    if mode == 0
    then get_cur_process_taskstruct vm k
    else (get_cur_process_usermode_taskstruct vm >>= λ task_struct_hp. ok (k, task_struct_hp))

unfoldable pub get_cur_process_name : Vm → ℕ → Kept → Run (Kept × ℕ)
get_cur_process_name vm mode k = taskstruct_of vm mode k >>= λ (k', task_struct_hp).
    let pname = add64 task_struct_hp 0x18c in
    ok (
      if task_struct_hp == no_address
          then k'
          else outf k' "+++++ process name: %s\n" (at pname ∷ []),
      pname,
    )

-- The number of the thread, by the 32 bits of an `int`; 0 where no task is found.
unfoldable pub get_cur_threadid : Vm → ℕ → Kept → Run (Kept × ℕ)
get_cur_threadid vm mode k = taskstruct_of vm mode k >>= λ (k', task_struct_hp).
    ok (k', if task_struct_hp == no_address then 0 else vm.guest.mem (add64 task_struct_hp 0xa8))
