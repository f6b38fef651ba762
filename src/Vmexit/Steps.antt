-- ===== src/Vmexit/Steps.antt =====
-- The whole handlers refine the exits of Intercept.Exits: what `handle_vmexit` does to
-- interceptions is one of those steps.
use hv_sebek.Base.{
  ℕ, ◌≡◌, arith, ◌⊎◌, inl, inr, Bool, true, false, Bool-cases, leb, ◌&&◌, u32, ◌==◌, if◌then◌else◌,
}
use hv_sebek.Base.Run.{Run, ok}
use hv_sebek.Intercept.{Guest, handle_cr3_write}
use hv_sebek.Intercept.Exits.{
  Exit, debug, page_fault, cr3_write, popf, iret, enable, disable, handle_exit, handle_page_fault,
  handle_vm_iret,
}
use hv_sebek.Vmexit.{Vm, Kept}
use hv_sebek.Vmexit.Calls.Dispatch.{Stack, trap_return, handle_syscall}
use hv_sebek.Vmexit.Handlers.{
  handle_exception, handle_swint, handle_iret, handle_popf_exit, handle_wrmsr, enable_command,
  disable_command, handle_vmmcall, dispatch_exit, handle_vmexit, inject_exception, inject_swint,
}

-- What becomes of the interceptions: nothing, a step of `handle_exit`, or the trap that a system
-- call sets for its return.
pub data Step (g : Guest) : Guest → Type 0 where
  same : Step g g
  by_exit : (e : Exit) → Step g (handle_exit e g)
  trapped : Step g (trap_return g)

module _ (vm vm' : Vm) (k k' : Kept) where
  syscall-guest :
      (fuel : ℕ) (stack : Stack)
      → handle_syscall fuel stack vm k ≡ ok (vm', k')
      → vm'.guest ≡ trap_return vm.guest
  unfolding handle_syscall
  syscall-guest fuel stack returned = ground arith

  iret-guest : handle_iret vm k ≡ ok (vm', k') → vm'.guest ≡ handle_exit iret vm.guest
  unfolding handle_iret handle_exit handle_vm_iret
  iret-guest returned = ground arith

  popf-guest : handle_popf_exit vm k ≡ ok (vm', k') → vm'.guest ≡ handle_exit popf vm.guest
  unfolding handle_popf_exit handle_exit
  popf-guest returned = ground arith

  wrmsr-guest : handle_wrmsr vm k ≡ ok (vm', k') → vm'.guest ≡ vm.guest
  unfolding handle_wrmsr
  wrmsr-guest returned = ground arith

  exception-guest :
      handle_exception vm k ≡ ok (vm', k')
      → vm'.guest ≡ (
          if vm.exitcode == 65
          then handle_exit debug vm.guest
          else (if vm.exitcode == 78
              then handle_exit (page_fault vm.exitinfo1) vm.guest
              else vm.guest))
  unfolding handle_exception handle_exit handle_page_fault inject_exception
  exception-guest returned = ground arith

  enable-guest :
      (flags : ℕ)
      → enable_command flags vm k ≡ ok (vm', k')
      → vm'.guest ≡ handle_exit (enable flags) vm.guest
  unfolding enable_command handle_exit
  enable-guest flags returned = ground arith

  disable-guest :
      (flags : ℕ)
      → disable_command flags vm k ≡ ok (vm', k')
      → vm'.guest ≡ handle_exit (disable flags k'.ptracked.used) vm.guest
  unfolding disable_command handle_exit
  disable-guest flags returned = ground arith

  swint-guest :
      (fuel : ℕ) (stack : Stack)
      → handle_swint fuel stack vm k ≡ ok (vm', k')
      → (vm'.guest ≡ vm.guest) ⊎ (vm'.guest ≡ trap_return vm.guest)
  unfolding handle_swint inject_swint handle_syscall
  swint-guest fuel stack returned = ground arith

  vmmcall-guest :
      handle_vmmcall vm k ≡ ok (vm', k')
      → vm'.guest ≡ (
          if vm.regs.g_rbx == 0
          then handle_exit (enable (u32 vm.regs.g_rcx)) vm.guest
          else (if vm.regs.g_rbx == 1
              then handle_exit (disable (u32 vm.regs.g_rcx) k'.ptracked.used) vm.guest
              else vm.guest))
  unfolding handle_vmmcall handle_exit enable_command disable_command
  vmmcall-guest returned = ground arith

  Step-if : (b : Bool) (e : Exit) → Step vm.guest (if b then handle_exit e vm.guest else vm.guest)
  Step-if true e = by_exit e
  Step-if false e = same

  Step-of : (g : Guest) → vm'.guest ≡ g → Step vm.guest g → Step vm.guest vm'.guest
  Step-of g e s = rw e s

  cr3_guest :
      ◌≡◌ {A = Run (Vm × Kept)}
        (ok (record vm { guest = handle_cr3_write vm.guest }, k))
        (ok (vm', k'))
      → vm'.guest ≡ handle_exit cr3_write vm.guest
  unfolding handle_exit
  cr3_guest returned = ground arith

  choose :
      (b : Bool) {x y : Run (Vm × Kept)}
      → (x ≡ ok (vm', k') → Step vm.guest vm'.guest)
      → (y ≡ ok (vm', k') → Step vm.guest vm'.guest)
      → (if b then x else y) ≡ ok (vm', k')
      → Step vm.guest vm'.guest
  choose true first second = first
  choose false first second = second

  dispatch-guest :
      (fuel : ℕ) (stack : Stack)
      → dispatch_exit fuel stack vm k ≡ ok (vm', k')
      → Step vm.guest vm'.guest
  unfolding dispatch_exit
  dispatch-guest fuel stack =
      choose (leb 64 vm.exitcode && leb vm.exitcode 83)
        (λ r. Step-of _ (exception-guest r) (elim (Bool-cases (vm.exitcode == 65)) [
          | inl hit ↦ rw hit (by_exit debug)
          | inr miss ↦ rw miss (Step-if (vm.exitcode == 78) (page_fault vm.exitinfo1))
        ]))
        (choose (vm.exitcode == 124)
          (choose (vm.exitinfo1 == 1) (λ r. Step-of _ (wrmsr-guest r) same)
            (λ r. Step-of _ (ground arith) same))
          (choose (vm.exitcode == 117)
            (λ r. elim (swint-guest fuel stack r) [
              | inl kept ↦ Step-of _ kept same
              | inr trap ↦ Step-of _ trap trapped
            ])
            (choose (vm.exitcode == 1024) (λ r. absurd (ground arith))
              (choose (vm.exitcode == 129)
                (λ r. Step-of _ (vmmcall-guest r) (elim (Bool-cases (vm.regs.g_rbx == 0)) [
                  | inl hit ↦ rw hit (by_exit (enable (u32 vm.regs.g_rcx)))
                  | inr miss ↦
                      rw miss (
                        Step-if (vm.regs.g_rbx == 1) (disable (u32 vm.regs.g_rcx) k'.ptracked.used))
                ]))
                (choose (vm.exitcode == 116) (λ r. Step-of _ (iret-guest r) (by_exit iret))
                  (choose (vm.exitcode == 19) (λ r. Step-of _ (cr3_guest r) (by_exit cr3_write))
                    (choose (vm.exitcode == 113) (λ r. Step-of _ (popf-guest r) (by_exit popf))
                      (λ r. Step-of _ (ground arith) same))))))))

-- What an exit of the guest does to the interceptions, if its handler returns, is nothing, one of
-- the steps of `handle_exit`, or the trap that a system call sets for its return.
pub handle_vmexit-Step :
    (fuel : ℕ) (stack : Stack) (vm vm' : Vm) (k k' : Kept)
    → handle_vmexit fuel stack vm k ≡ ok (vm', k')
    → Step vm.guest vm'.guest
unfolding handle_vmexit
handle_vmexit-Step fuel stack vm vm' k k' = dispatch-guest vm vm' _ k' fuel stack
