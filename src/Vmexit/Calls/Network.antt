-- ===== src/Vmexit/Calls/Network.antt =====
-- `sys_socketcall` of kernel/intercept.c with the handlers of its calls, and `sys_execve`. Arguments
-- are read as `unsigned long`, of 64 bits, though the guest passes them 4 bytes apart.
use hv_sebek.Base.{
  ℕ, zero, suc, ◌+◌, ◌-◌, ◌*◌, ◌^◌, [], ◌∷◌, ◌++◌, List, ◌==◌, bit_and, if◌then◌else◌, switch,
  Words, update, add64, u32,
}
use hv_sebek.Base.Run.{Run, ok, fault, out_of_fuel, ◌>>=◌}
use hv_sebek.Segment.{read64}
use hv_sebek.Tracking.{SyscallInfo}
use hv_sebek.Vmexit.{Vm, Kept, Said, hex, at, outf, no_address, hphysic, read8, read16}
use hv_sebek.Vmexit.Calls.Files.{wait_in, dump_bytes}

abbrev pub sys_socketcall_no : ℕ
sys_socketcall_no = 102

abbrev pub sys_recvfrom_no : ℕ
sys_recvfrom_no = 12

-- `*((unsigned long *) glogic_2_hphysic(vm, vm->vmcb->ds.sel, g_rcx + offset))`
-- Where no address is found for an argument, it is read at -1.
unfoldable pub socket_arg : Vm → ℕ → Run ℕ
socket_arg vm offset = hphysic vm vm.ds (add64 vm.regs.g_rcx offset) >>= λ arg_hp.
    if arg_hp == no_address then fault else ok (read64 vm.guest.mem arg_hp)

-- `for (i = 0; i < 6; i++) arg[i] = ...`, over the rounds that are left.
unfoldable pub socket_args_from : Vm → ℕ → ℕ → Words → Run Words
unfolding socket_arg
socket_args_from vm zero i arg = ok arg
socket_args_from vm (suc rounds) i arg =
    socket_arg vm (i * 4) >>= λ value. socket_args_from vm rounds (i + 1) (update arg i value)

-- The array has no other entries than those that are filled.
unfoldable pub socket_args : Vm → Run Words
unfolding socket_args_from
socket_args vm = socket_args_from vm 6 0 (λ _. 0)

-- `peer_ip[0]` to `peer_ip[3]` and `sin_port` of the host's `struct sockaddr_in`, whose `sin_addr`
-- is an `unsigned long` and stands 8 bytes behind the start.
unfoldable pub peer_ip : Vm → ℕ → List Said
peer_ip vm peer_info_hp =
    let byte : ℕ → Said = λ i. hex (read8 vm.guest.mem (add64 peer_info_hp (8 + i))) in
    byte 0 ∷ byte 1 ∷ byte 2 ∷ byte 3 ∷ []

unfoldable pub sin_port : Vm → ℕ → Said
sin_port vm peer_info_hp = hex (read16 vm.guest.mem (add64 peer_info_hp 2))

unfoldable pub sys_recvfrom : SyscallInfo → Vm → Kept → Run Kept
unfolding socket_arg peer_ip sin_port wait_in
sys_recvfrom stack vm k = socket_arg vm 4 >>= λ buffer_gl. socket_arg vm 16 >>= λ peer_info_gl.
    socket_arg vm 8 >>= λ size.
    let bufsize = bit_and size (2 ^ 16 - 1) in
    (hphysic vm vm.ds peer_info_gl >>= λ peer_info_hp.
    let said = hex bufsize ∷ peer_ip vm peer_info_hp ++ sin_port vm peer_info_hp ∷ [] in
    let k' = outf k "receving %x bytes from  %x.%x.%x.%x : %x  " said in
    wait_in vm
      (record stack {
        syscallno = sys_socketcall_no;
        arg = buffer_gl;
        socketno = sys_recvfrom_no;
        datasize = bufsize;
      })
      k')

-- `datasize` has come from 16 bits.
unfoldable pub sys_recvfrom_iret : Vm → SyscallInfo → Kept → Run Kept
sys_recvfrom_iret vm info k = hphysic vm 0 info.arg >>= λ buffer_hp. ok (
    if buffer_hp == no_address
    then k
    else outf (dump_bytes info.datasize vm.guest.mem buffer_hp 0 k) "\n" [])

unfoldable pub sys_sendto : Vm → Kept → Run Kept
unfolding peer_ip sin_port socket_args
sys_sendto vm k = socket_args vm >>= λ arg.
    let bufsize = bit_and (arg 2) (2 ^ 16 - 1) in
    (hphysic vm vm.ds (arg 4) >>= λ peer_info_hp.
    (hphysic vm 0 (arg 1) >>= λ buffer_hp.
    let said = hex bufsize ∷ peer_ip vm peer_info_hp ++ sin_port vm peer_info_hp ∷ [] in
    let k' = outf k "sending %x bytes to  %x.%x.%x.%x:%x " said in
    ok (
      if buffer_hp == no_address
      then k
      else outf (dump_bytes bufsize vm.guest.mem buffer_hp 0 k') "\n" [])))

unfoldable pub sys_socket : Vm → Kept → Run Kept
unfolding socket_args
sys_socket vm k = socket_args vm >>= λ arg. ok (
    outf k "sys_socket  family %x, type %x protocol %x"
      (hex (arg 0) ∷ hex (arg 1) ∷ hex (arg 2) ∷ []))

unfoldable pub sys_bind : Vm → Kept → Run Kept
unfolding peer_ip socket_args
sys_bind vm k = socket_args vm >>= λ arg.
    (hphysic vm vm.ds (arg 1) >>= λ peer_info_hp. ok (
      outf k "sys_bind fd %x peer's ip %x.%x.%x.%x addrlen %x"
        (hex (arg 0) ∷ peer_ip vm peer_info_hp ++ hex (arg 2) ∷ [])))

unfoldable pub sys_connect : Vm → Kept → Run Kept
unfolding peer_ip socket_args
sys_connect vm k = socket_args vm >>= λ arg.
    (hphysic vm vm.ds (arg 1) >>= λ peer_info_hp. ok (
      outf k "sys_connect fd %x peer's ip %x.%x.%x.%x addrlen %x"
        (hex (arg 0) ∷ peer_ip vm peer_info_hp ++ hex (arg 2) ∷ [])))

unfoldable pub sys_listen : Vm → Kept → Run Kept
unfolding socket_args
sys_listen vm k = socket_args vm >>= λ arg.
    ok (outf k "listen  fd %x, backlog %x" (hex (arg 0) ∷ hex (arg 1) ∷ []))

unfoldable pub sys_accept : Vm → Kept → Run Kept
unfolding peer_ip socket_args
sys_accept vm k = socket_args vm >>= λ arg.
    (hphysic vm vm.ds (arg 1) >>= λ peer_info_hp.
    ok (outf k "sys_accept fd %x peer's ip %x.%x.%x.%x " (hex (arg 0) ∷ peer_ip vm peer_info_hp)))

-- `switch (call)`; a call without a case is not reported.
unfoldable pub sys_socketcall : SyscallInfo → Vm → Kept → Run Kept
sys_socketcall stack vm k =
    let call = u32 vm.regs.g_rbx in
    switch call
      ((1, sys_socket vm k)
        ∷ (2, sys_bind vm k)
        ∷ (3, sys_connect vm k)
        ∷ (4, sys_listen vm k)
        ∷ (5, sys_accept vm k)
        ∷ (11, sys_sendto vm k)
        ∷ (sys_recvfrom_no, sys_recvfrom stack vm k)
        ∷ [])
      (ok k)

-- `while (list[i] != NULL)`, over `char *` of 8 bytes. The list is the guest's: the fuel bounds how
-- far it is read.
unfoldable pub strings_from : ℕ → Vm → ℕ → ℕ → Kept → Run Kept
strings_from zero vm list i k = out_of_fuel
strings_from (suc fuel) vm list i k =
    let item = read64 vm.guest.mem (add64 list (i * 8)) in
    let next = read64 vm.guest.mem (add64 list ((i + 1) * 8)) in
    let rest =
      (hphysic vm vm.ds item >>= λ temp_addr.
      let k1 = if temp_addr == no_address then k else outf k "%s" (at temp_addr ∷ []) in
      let k2 = if next == 0 then k1 else outf k1 ", " [] in strings_from fuel vm list (i + 1) k2) in
    if item == 0 then ok k else rest

-- `sys_execve`, with the fuel for each of its two lists. The bracket of the second is opened even
-- where the first one was not.
unfoldable pub sys_execve : ℕ → Vm → Kept → Run Kept
sys_execve fuel vm k = hphysic vm vm.ds vm.regs.g_rbx >>= λ arg1.
    let k1 = if arg1 == no_address then k else outf k "Filename: %s " (at arg1 ∷ []) in
    (hphysic vm vm.ds vm.regs.g_rcx >>= λ arg2.
    ((if arg2 == no_address then ok k1 else strings_from fuel vm arg2 0 (outf k1 "Arguments[" []))
      >>= λ k2.
          let k3 = outf k2 "], key=value pairs[" [] in
          (hphysic vm vm.ds vm.regs.g_rdx >>= λ arg3.
          ((if arg3 == no_address then ok k3 else strings_from fuel vm arg3 0 k3) >>= λ k4.
          ok (outf k4 "]" [])))))
