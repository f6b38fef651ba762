-- ===== src/Vmexit/Total/Calls.antt =====
-- The handlers of system calls in kernel/intercept.c return.
use hv_sebek.Base.{
  ℕ, zero, suc, ◌+◌, ◌*◌, ◌<◌, ◌≤◌, ◌≡◌, ◌≢◌, refl, sym, subst, arith, true, List, [], ◌∷◌, switch,
  length, ◌==◌, bit_and, Words, inl, inr, Bool-cases, u32, add64,
}
use hv_sebek.Base.Run.{Run, ok, is_ok, is_ok-Returns}
use hv_sebek.Legacy.{x86_cr4_pae}
use hv_sebek.Segment.{read64}
use hv_sebek.Tracking.{SyscallInfo}
use hv_sebek.Vmexit.{Vm, Kept, hphysic}
use hv_sebek.Vmexit.Calls.Files.{
  sys_uselib, sys_open, sys_close, sys_waitpid, sys_link, sys_unlink, sys_mmap, sys_munmap,
  sys_access, sys_lchown, sys_lseek, sys_read, sys_write, sys_ioctl, sys_fstat, outf_name,
}
use hv_sebek.Vmexit.Calls.Network.{
  socket_arg, socket_args, socket_args_from, sys_recvfrom, sys_sendto, sys_socket, sys_bind,
  sys_connect, sys_listen, sys_accept, sys_socketcall, strings_from, sys_execve,
}
use hv_sebek.Vmexit.Calls.Dispatch.{
  Stack, syscall_cases, syscall_handler, handle_syscall, wait_anyway, syscalls,
}
use hv_sebek.Vmexit.Calls.Table.{SyscallEntry, entry_at}
use hv_sebek.Vmexit.Calls.Table.First.{first_syscalls}
use hv_sebek.Vmexit.Calls.Table.Middle.{middle_syscalls}
use hv_sebek.Vmexit.Calls.Table.Last.{last_syscalls}
use hv_sebek.Vmexit.Total.{ArgumentsFound, hphysic-ok, wait-ok}

-- Every case that the number can take is a call that returns.
abbrev pub AllOk {ℓ} : {A : Type ℓ} → ℕ → List (ℕ × Run A) → Type 0
AllOk n [] = Unit
AllOk n (case ∷ cases) = (n ≡ case.0 → is_ok case.1 ≡ true) × AllOk n cases

switch-ok {ℓ} :
    {A : Type ℓ} (n : ℕ) (cases : List (ℕ × Run A)) (rest : Run A)
    → AllOk n cases
    → is_ok rest ≡ true
    → is_ok (switch n cases rest) ≡ true
switch-ok n [] rest each last = last
switch-ok n (case ∷ cases) rest each last = elim (Bool-cases (n == case.0)) [
  | inl hit ↦ rw hit (each.0 (ground (arith, hit)))
  | inr miss ↦ rw miss (switch-ok n cases rest each.1 last)
]

entry_at-ok : (l : List SyscallEntry) (n : ℕ) → n < length l → is_ok (entry_at l n) ≡ true
unfolding entry_at
entry_at-ok [] n less = absurd (omega arith)
entry_at-ok (e ∷ l) zero less = refl
entry_at-ok (e ∷ l) (suc n) less = entry_at-ok l n (omega arith)

length-syscalls : length syscalls ≡ 333
unfolding syscalls first_syscalls middle_syscalls last_syscalls
length-syscalls = refl

module _ (vm : Vm) (legacy : bit_and vm.cr4 x86_cr4_pae ≡ 0) where
  -- A list of strings that ends before the fuel does.
  strings-ok :
      (length fuel list i last : ℕ)
      → length < fuel
      → last ≡ i + length
      → read64 vm.guest.mem (add64 list (last * 8)) ≡ 0
      → (k : Kept) → is_ok (strings_from fuel vm list i k) ≡ true
  unfolding strings_from
  strings-ok length zero list i last less at ends k = absurd (omega arith)
  strings-ok zero (suc fuel) list i last less at ends k =
      let here : last ≡ i = omega arith in
      let item : read64 vm.guest.mem (add64 list (i * 8)) ≡ 0 =
        subst (λ n. read64 vm.guest.mem (add64 list (n * 8)) ≡ 0) here ends in
      rw item
  strings-ok (suc length) (suc fuel) list i last less at ends k = grind (
    arith,
    hphysic-ok vm legacy,
    strings-ok length fuel list (i + 1) last (omega arith) (omega arith) ends,
  )

  -- `execve` is handled if both of its lists end before the fuel does, counted from where they
  -- stand in memory.
  pub sys_execve-Returns :
      (fuel args_hp env_hp args env : ℕ) (k : Kept)
      → hphysic vm vm.ds vm.regs.g_rcx ≡ ok args_hp
      → hphysic vm vm.ds vm.regs.g_rdx ≡ ok env_hp
      → args < fuel
      → env < fuel
      → read64 vm.guest.mem (add64 args_hp (args * 8)) ≡ 0
      → read64 vm.guest.mem (add64 env_hp (env * 8)) ≡ 0
      → (k' : Kept) × (sys_execve fuel vm k ≡ ok k')
  unfolding sys_execve
  sys_execve-Returns fuel args_hp env_hp args env k first second less less' end end' =
      is_ok-Returns (sys_execve fuel vm k) (
        rw (first, second)
          (grind (
            arith,
            hphysic-ok vm legacy,
            strings-ok args fuel args_hp 0 args less (omega arith) end,
            strings-ok env fuel env_hp 0 env less' (omega arith) end',
          )))

module _ (vm : Vm) (legacy : bit_and vm.cr4 x86_cr4_pae ≡ 0) (found : ArgumentsFound vm) where
  socket_arg-ok : (offset : ℕ) → offset < 24 → is_ok (socket_arg vm offset) ≡ true
  unfolding socket_arg
  socket_arg-ok offset less = grind (arith, hphysic-ok vm legacy, found.words offset less)

  socket_args_from-ok :
      (rounds i : ℕ) (arg : Words)
      → rounds + i ≤ 6
      → is_ok (socket_args_from vm rounds i arg) ≡ true
  unfolding socket_args_from
  socket_args_from-ok zero i arg six = refl
  socket_args_from-ok (suc rounds) i arg six =
      let rest = λ (arg' : Words). socket_args_from-ok rounds (i + 1) arg' (omega arith) in
      grind (arith, socket_arg-ok (i * 4) (omega arith), rest)

  recvfrom-ok : (stack : SyscallInfo) (k : Kept) → is_ok (sys_recvfrom stack vm k) ≡ true
  unfolding sys_recvfrom
  recvfrom-ok stack k = grind (
    arith,
    hphysic-ok vm legacy,
    socket_arg-ok 4 (omega arith),
    socket_arg-ok 16 (omega arith),
    socket_arg-ok 8 (omega arith),
    wait-ok vm legacy,
  )

  socketcall-ok : (stack : SyscallInfo) (k : Kept) → is_ok (sys_socketcall stack vm k) ≡ true
  unfolding sys_socketcall sys_socket sys_bind sys_connect sys_listen sys_accept sys_sendto
      socket_args
  socketcall-ok stack k =
      let args = socket_args_from-ok 6 0 (λ _. 0) (omega arith) in
      grind (arith, hphysic-ok vm legacy, args, recvfrom-ok stack k)

  handler-ok :
      (fuel : ℕ) (stack : Stack) (call nargs : ℕ) (k : Kept)
      → call ≢ 11
      → is_ok (syscall_handler fuel stack call nargs vm k) ≡ true
  unfolding syscall_handler syscall_cases sys_uselib sys_open sys_close sys_waitpid sys_link
      sys_unlink sys_mmap sys_munmap sys_access sys_lchown sys_lseek sys_read sys_write sys_ioctl
      sys_fstat outf_name
  handler-ok fuel stack call nargs k other =
      let translated = hphysic-ok vm legacy in
      let waits = wait-ok vm legacy in
      let rbx = found.rbx in
      let rcx = found.rcx in
      switch-ok call (syscall_cases fuel stack vm k) _
        (
          λ _. grind (arith, waits),
          (
            λ _. grind (arith, translated, rbx, rcx),
            (
              λ _. grind (arith, translated, waits),
              (
                λ _. refl,
                (
                  λ _. grind (arith, translated, rbx, rcx),
                  (
                    λ _. grind (arith, translated, rbx, rcx),
                    (
                      λ _. grind (arith, translated, rbx, rcx),
                      (
                        λ e. absurd (other e),
                        (
                          λ _. grind (arith, translated, rbx, rcx),
                          (
                            λ _. refl,
                            (
                              λ _. grind (arith, translated, rbx, rcx),
                              (
                                λ _. refl,
                                (
                                  λ _. grind (arith, translated, rbx, rcx),
                                  (
                                    λ _. refl,
                                    (λ _. refl, (λ _. socketcall-ok _ k, (λ _. refl, tt))),
                                  ),
                                ),
                              ),
                            ),
                          ),
                        ),
                      ),
                    ),
                  ),
                ),
              ),
            ),
          ),
        )
        refl

  pub handle_syscall-ok :
      (fuel : ℕ) (stack : Stack) (k : Kept)
      → u32 vm.rax < 333
      → u32 vm.rax ≢ 11
      → is_ok (handle_syscall fuel stack vm k) ≡ true
  unfolding handle_syscall wait_anyway
  handle_syscall-ok fuel stack k less other =
      let known =
        entry_at-ok syscalls (u32 vm.rax)
          (subst (λ n. u32 vm.rax < n) (sym length-syscalls) less) in
      grind (
        arith,
        known,
        wait-ok vm legacy,
        λ (nargs : ℕ) (k' : Kept). handler-ok fuel stack (u32 vm.rax) nargs k' other,
      )
