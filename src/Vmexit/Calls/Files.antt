-- ===== src/Vmexit/Calls/Files.antt =====
-- The handlers of system calls on files and memory in kernel/intercept.c, sys_uselib to sys_ioctl
-- and sys_fstat. What a handler puts into an uninitialised `struct syscall_info` is given by what
-- stood there.
use hv_sebek.Base.{
  ℕ, zero, suc, ◌+◌, ◌-◌, ◌^◌, List, [], ◌∷◌, ◌==◌, ltb, leb, ◌&&◌, bit_and, if◌then◌else◌, switch,
  Words, add64, u32, String,
}
use hv_sebek.Base.Run.{Run, ok, fault, ◌>>=◌}
use hv_sebek.Tracking.{SyscallInfo, vm_add_fileid2name_map, vm_add_waiting_thread}
use hv_sebek.Vmexit.{Vm, Kept, hex, at, outf, outf_file, no_address, hphysic, read8}
use hv_sebek.Vmexit.Task.{get_cur_threadid}

abbrev pub sys_read_no : ℕ
sys_read_no = 3

abbrev pub sys_open_no : ℕ
sys_open_no = 5

-- `vm_add_waiting_thread` for the current thread, from user mode.
unfoldable pub wait_in : Vm → SyscallInfo → Kept → Run Kept
wait_in vm info k = get_cur_threadid vm 3 k >>= λ (k', tid).
    ok (record k' { syscallmap = vm_add_waiting_thread k'.syscallmap tid info })

unfoldable pub sys_uselib : Vm → Kept → Run Kept
sys_uselib vm k = hphysic vm vm.ds vm.regs.g_rbx >>= λ arg1.
    ok (if arg1 == no_address then k else outf k "library used: = %s" (at arg1 ∷ []))

unfoldable pub sys_open : SyscallInfo → Vm → Kept → Run Kept
unfolding wait_in
sys_open stack vm k = hphysic vm vm.ds vm.regs.g_rbx >>= λ filename.
    let flags = bit_and vm.regs.g_rcx (2 ^ 16 - 1) in
    let mode = bit_and vm.regs.g_rdx (2 ^ 16 - 1) in
    let k' = outf k "filename: %s, flags: %x, mode: %x" (at filename ∷ hex flags ∷ hex mode ∷ []) in
    let waiting = wait_in vm (record stack { syscallno = sys_open_no; arg = filename }) k' in
    (if filename == no_address then ok k else waiting)

-- So many bytes from an address on.
unfoldable pub bytes_from : ℕ → Words → ℕ → List ℕ
bytes_from zero mem address = []
bytes_from (suc n) mem address = read8 mem address ∷ bytes_from n mem (add64 address 1)

-- The name is copied from where the call had passed it.
unfoldable pub sys_open_iret : Vm → SyscallInfo → Kept → Run Kept
unfolding bytes_from
sys_open_iret vm info k =
    vm_add_fileid2name_map k.fmap (u32 vm.rax) (bytes_from 20 vm.guest.mem info.arg) >>= λ fmap.
    ok (record k { fmap = fmap })

unfoldable pub sys_close : Vm → Kept → Run Kept
sys_close vm k = ok (outf_file k vm.regs.g_rbx "fd: %x" "filename: %s")

-- The first argument is an `int`: from 2^31 on it is negative.
unfoldable pub waitpid_target : ℕ → Kept → Kept
waitpid_target arg1 k =
    if leb (2 ^ 31) arg1 && ltb arg1 (2 ^ 32 - 1)
    then outf k "Waiting for any child process whose process group ID is %x, "
        (hex (2 ^ 32 - arg1) ∷ [])
    else (if arg1 == 2 ^ 32 - 1
        then outf k "Waiting for any child process, " []
        else (if arg1 == 0
            then outf k
                "Waiting for child process whose process group ID is equal to that of the calling process, "
                []
            else outf k "Waiting for child process whose process ID is %x, " (hex arg1 ∷ [])))

-- Where no address is found for the status, it is read at -1, behind all that is mapped.
unfoldable pub sys_waitpid : Vm → Kept → Run Kept
unfolding waitpid_target
sys_waitpid vm k =
    let k' = waitpid_target (u32 vm.regs.g_rbx) k in
    let ended = λ (status : Kept). ok (outf status "Option: %x" (hex (u32 vm.regs.g_rdx) ∷ [])) in
    (hphysic vm vm.ds vm.regs.g_rcx >>= λ arg2.
    if arg2 == 0
    then ended (outf k' "Status: NULL, " [])
    else (if arg2 == no_address
        then fault
        else ended (outf k' "Status: %x, " (hex (vm.guest.mem arg2) ∷ []))))

-- The report of a name, unless the address is `NULL`; where none is found, the name is read at -1.
unfoldable pub outf_name : Kept → ℕ → String → Run Kept
outf_name k address format =
    if address == 0
    then ok k
    else (if address == no_address then fault else ok (outf k format (at address ∷ [])))

unfoldable pub sys_link : Vm → Kept → Run Kept
unfolding outf_name
sys_link vm k = hphysic vm vm.ds vm.regs.g_rbx >>= λ arg1.
    outf_name k arg1 "Old Filename: %s, " >>= λ k'.
    hphysic vm vm.ds vm.regs.g_rcx >>= λ arg2. outf_name k' arg2 "New Filename: %s"

unfoldable pub sys_unlink : Vm → Kept → Run Kept
unfolding outf_name
sys_unlink vm k = hphysic vm vm.ds vm.regs.g_rbx >>= λ arg1. outf_name k arg1 "Filename: %s"

unfoldable pub sys_mmap : Vm → Kept → Run Kept
sys_mmap vm k =
    let k1 = outf k "Starting Addr: %x, " (hex vm.regs.g_rbx ∷ []) in
    let k2 = outf k1 "Length: %x, " (hex (u32 vm.regs.g_rcx) ∷ []) in
    let k3 = outf k2 "MEM Protection: %x, " (hex (u32 vm.regs.g_rdx) ∷ []) in
    let k4 = outf k3 "Flag: %x, " (hex (u32 vm.regs.g_rsi) ∷ []) in
    let k5 = outf_file k4 vm.regs.g_rdi "fd: %x, " "filename: %s, " in
    ok (outf k5 "Offset: %x" (hex (u32 vm.regs.g_rbp) ∷ []))

unfoldable pub sys_munmap : Vm → Kept → Run Kept
sys_munmap vm k =
    let k' = outf k "Starting Addr: %x, " (hex vm.regs.g_rbx ∷ []) in
    ok (outf k' "Length: %x" (hex (u32 vm.regs.g_rcx) ∷ []))

-- `switch (arg2)` over R_OK, W_OK, X_OK and F_OK.
unfoldable pub access_mode : ℕ → Kept → Kept
access_mode arg2 k =
    switch arg2
      ((4, outf k "Mode: Readable" [])
        ∷ (2, outf k "Mode: Writable" [])
        ∷ (1, outf k "Mode: Executable" [])
        ∷ (0, outf k "Mode: File exists" [])
        ∷ [])
      k

unfoldable pub sys_access : Vm → Kept → Run Kept
unfolding access_mode outf_name
sys_access vm k = hphysic vm vm.ds vm.regs.g_rbx >>= λ arg1.
    outf_name k arg1 "Filename to check: %s, " >>= λ k'. ok (access_mode (u32 vm.regs.g_rcx) k')

unfoldable pub sys_lchown : Vm → Kept → Run Kept
unfolding outf_name
sys_lchown vm k = hphysic vm vm.ds vm.regs.g_rbx >>= λ arg1.
    outf_name k arg1 "Filename: %s, " >>= λ k1.
    let k2 = outf k1 "Owner ID: %x, " (hex (u32 vm.regs.g_rcx) ∷ []) in
    ok (outf k2 "Group ID: %x" (hex (u32 vm.regs.g_rdx) ∷ []))

unfoldable pub sys_lseek : Vm → Kept → Run Kept
sys_lseek vm k =
    let k1 = outf_file k vm.regs.g_rbx "fd: %x, " "filename: %s, " in
    let k2 = outf k1 "Offset: %x, " (hex (u32 vm.regs.g_rcx) ∷ []) in
    ok (outf k2 "whence: %x" (hex (u32 vm.regs.g_rdx) ∷ []))

unfoldable pub sys_read : SyscallInfo → Vm → Kept → Run Kept
unfolding wait_in
sys_read stack vm k =
    let k1 = outf_file k vm.regs.g_rbx "fd: %x, " "filename: %s, " in
    let k2 = outf k1 "buffer: %x, " (hex vm.regs.g_rcx ∷ []) in
    let k3 = outf k2 "size: %x" (hex (bit_and vm.regs.g_rdx (2 ^ 16 - 1)) ∷ []) in
    wait_in vm (record stack { syscallno = sys_read_no; arg = vm.regs.g_rcx }) k3

-- `for (...) outf("%x ", *((char *) (buffer_hp + i)) & 0xFF)`, over the rounds that are left.
unfoldable pub dump_bytes : ℕ → Words → ℕ → ℕ → Kept → Kept
dump_bytes zero mem buffer_hp i k = k
dump_bytes (suc rounds) mem buffer_hp i k =
    dump_bytes rounds mem buffer_hp (i + 1)
      (outf k "%x " (hex (read8 mem (add64 buffer_hp i)) ∷ []))

-- At most 10 bytes are reported; `rax` is unsigned.
unfoldable pub sys_read_iret : Vm → SyscallInfo → Kept → Run Kept
unfolding dump_bytes
sys_read_iret vm info k =
    let k1 = outf k "sys_read return value: %x\n" (hex vm.rax ∷ []) in
    let reported =
      (hphysic vm vm.ds info.arg >>= λ buffer_hp.
      let len : ℕ = if ltb vm.rax 10 then vm.rax else 10 in
      let dumped = dump_bytes len vm.guest.mem buffer_hp 0 (outf k1 "first 10 bytes: " []) in
      ok (if buffer_hp == no_address then k1 else outf dumped "\n" [])) in
    if vm.rax == 0 then ok k1 else reported

unfoldable pub sys_write : Vm → Kept → Run Kept
sys_write vm k =
    let k1 = outf_file k vm.regs.g_rbx "fd: %x, " "filename: %s, " in
    let k2 = outf k1 "size: %x, " (hex vm.regs.g_rdx ∷ []) in
    (hphysic vm vm.ds vm.regs.g_rcx >>= λ arg2.
    ok (if arg2 == no_address then k2 else outf k2 "content written [%s]" (at arg2 ∷ [])))

unfoldable pub sys_ioctl : Vm → Kept → Run Kept
sys_ioctl vm k =
    let k1 = outf_file k vm.regs.g_rbx "fd: %x, " "filename: %s, " in
    let k2 = outf k1 "Device-dependent request code: %x, " (hex (u32 vm.regs.g_rcx) ∷ []) in
    ok (outf k2 "Memory Addr: %x" (hex vm.regs.g_rdx ∷ []))

unfoldable pub sys_fstat : Vm → Kept → Run Kept
sys_fstat vm k =
    let k1 = outf_file k vm.regs.g_rbx "fd: %x, " "filename: %s, " in
    ok (outf k1 "Addr to Stat Structure: %x" (hex vm.regs.g_rcx ∷ []))
