-- ===== src/Vmexit/Commands.antt =====
-- The commands that a user of the guest gives by `vmmcall`, up to the task switch that carries them
-- out, in kernel/intercept.c.
use hv_sebek.Base.{
  ℕ, ◌^◌, ◌≤◌, ◌<◌, ◌≡◌, ◌≢◌, refl, ◌∙◌, arith, true, bit_and, bit_or, u32, ◌==◌, if◌then◌else◌,
}
use hv_sebek.Base.Bits.{bit, bit-lt, bit-bit_or, bit_lem, flag_lem}
use hv_sebek.Base.Run.{ok, is_ok, is_ok-Returns}
use hv_sebek.Legacy.{x86_cr4_pae}
use hv_sebek.Intercept.{Guest, clear32}
use hv_sebek.Intercept.Flags.{bit-clear, bit-set, vm_enable_intercept-bits}
use hv_sebek.Intercept.Exits.{handle_popf, user_enable_intercept}
use hv_sebek.Vmexit.{Vm, Kept}
use hv_sebek.Vmexit.Reports.{print_vmcb_state}
use hv_sebek.Vmexit.Calls.Dispatch.{Stack}
use hv_sebek.Vmexit.Handlers.{
  handle_vmmcall, enable_command, handle_popf_exit, dispatch_exit, handle_vmexit,
}
use hv_sebek.Vmexit.Total.{StackFound, hphysic-ok, name-ok}

-- The flags that are carried out at the `popf`: all but the one for task switches.
kept_flags : (old flags n : ℕ) → n < 32 → n ≢ 1 → bit flags n ≤ bit (clear32 (bit_or old flags) 2) n
kept_flags old flags n small other =
    ground (arith, bit-clear 32 (bit_or old flags) 1 n (omega arith) small, bit-bit_or n old flags)

module _ (fuel : ℕ) (stack : Stack) (vm : Vm) (k : Kept)
    (legacy : bit_and vm.cr4 x86_cr4_pae ≡ 0) where
  enable-ok : vm.exitcode ≡ 129 → vm.regs.g_rbx ≡ 0 → is_ok (handle_vmexit fuel stack vm k) ≡ true
  unfolding handle_vmexit print_vmcb_state dispatch_exit handle_vmmcall enable_command
  enable-ok call enable = grind (arith, hphysic-ok vm legacy)

  popf-ok : vm.exitcode ≡ 113 → StackFound vm → is_ok (handle_vmexit fuel stack vm k) ≡ true
  unfolding handle_vmexit print_vmcb_state dispatch_exit handle_popf_exit
  popf-ok popf found = let named = λ (k' : Kept). name-ok vm legacy k' found in grind (arith, named)

module _ (fuel : ℕ) (stack : Stack) (vm vm' : Vm) (k k' : Kept)
    (returned : handle_vmexit fuel stack vm k ≡ ok (vm', k')) where
  enabled_flags :
      vm.exitcode ≡ 129
      → vm.regs.g_rbx ≡ 0
      → vm'.guest.itc_flag ≡ bit_or vm.guest.itc_flag (u32 vm.regs.g_rcx)
  unfolding handle_vmexit dispatch_exit handle_vmmcall enable_command user_enable_intercept
  enabled_flags call enable = ground arith

  -- Writes to CR3 are intercepted at once, if task switches are asked for.
  enabled_switches :
      vm.exitcode ≡ 129
      → vm.regs.g_rbx ≡ 0
      → bit (u32 vm.regs.g_rcx) 1 ≤ bit vm'.guest.cr_intercepts 19
  unfolding handle_vmexit dispatch_exit handle_vmmcall enable_command user_enable_intercept
  enabled_switches call enable =
      let flags = u32 vm.regs.g_rcx in
      let changed : vm'.guest.cr_intercepts ≡ (
          if bit_and flags 2 == 0
          then vm.guest.cr_intercepts
          else bit_or vm.guest.cr_intercepts (2 ^ 19)) =
        ground arith in
      ground
        (arith, changed, bit-set vm.guest.cr_intercepts 19 19, flag_lem 1 flags, bit_lem 1 flags)

  switched : vm.exitcode ≡ 113 → vm'.guest ≡ handle_popf vm.guest
  unfolding handle_vmexit dispatch_exit handle_popf_exit
  switched popf = ground arith

-- The interceptions of the flags are on: page faults for unpacking, debug exceptions and the trap
-- flag for single steps, `iret`, `int n` for software interrupts and for system calls, and writes to
-- CR3 for task switches.
abbrev pub CarriedOut : ℕ → Guest → Type 0
CarriedOut flags g =
    (g.btrackcurrent ≡ 1)
    × (bit flags 5 ≤ bit g.exception_intercepts 14)
    × (bit flags 4 ≤ bit g.exception_intercepts 1)
    × (bit flags 4 ≤ bit g.rflags 8)
    × (bit flags 3 ≤ bit g.general1_intercepts 20)
    × (bit flags 2 ≤ bit g.general1_intercepts 21)
    × (bit flags 0 ≤ bit g.general1_intercepts 21)
    × (bit flags 1 ≤ bit g.cr_intercepts 19)

popf_enables :
    (g : Guest) (flags old : ℕ)
    → g.itc_flag ≡ bit_or old flags
    → bit flags 1 ≤ bit g.cr_intercepts 19
    → CarriedOut flags (handle_popf g)
unfolding handle_popf
popf_enables g flags old asked_for switches =
    let seen : Guest = record g { general1_intercepts = clear32 g.general1_intercepts (2 ^ 17) } in
    let flags' = clear32 g.itc_flag 2 in
    let bits = λ (n : ℕ) (small : n < 32). vm_enable_intercept-bits seen flags' n small in
    let kept : (n : ℕ) → n < 32 → n ≢ 1 → bit flags n ≤ bit flags' n =
      λ n small other. rw asked_for (kept_flags old flags n small other) in
    (
      refl,
      ground (
        arith,
        (bits 14 (omega arith)).0,
        kept 5 (omega arith) (λ e. omega (arith, e)),
        bit-lt flags' 5,
      ),
      ground (
        arith,
        (bits 1 (omega arith)).0,
        kept 4 (omega arith) (λ e. omega (arith, e)),
        bit-lt flags' 4,
      ),
      ground (
        arith,
        (bits 8 (omega arith)).3,
        kept 4 (omega arith) (λ e. omega (arith, e)),
        bit-lt flags' 4,
      ),
      ground (
        arith,
        (bits 20 (omega arith)).1,
        kept 3 (omega arith) (λ e. omega (arith, e)),
        bit-lt flags' 3,
      ),
      ground (
        arith,
        (bits 21 (omega arith)).1,
        kept 2 (omega arith) (λ e. omega (arith, e)),
        bit-lt flags' 2,
      ),
      ground (
        arith,
        (bits 21 (omega arith)).1,
        kept 0 (omega arith) (λ e. omega (arith, e)),
        bit-lt flags' 0,
      ),
      ground (arith, (bits 19 (omega arith)).2, switches, bit-lt flags 1),
    )

-- What the guest does until its next exit, which is the `popf` of a task switch.
module _ (guest_runs : Vm → Vm)
    (keeps : (v : Vm) → (guest_runs v).guest.itc_flag ≡ v.guest.itc_flag)
    (keeps_switches : (v : Vm) → (guest_runs v).guest.cr_intercepts ≡ v.guest.cr_intercepts)
    (legacy2 : (v : Vm) → bit_and (guest_runs v).cr4 x86_cr4_pae ≡ 0)
    (popf : (v : Vm) → (guest_runs v).exitcode ≡ 113)
    (stack_found : (v : Vm) → StackFound (guest_runs v)) where
  -- Without physical address extension: a user's command to enable interceptions is handled, and
  -- where the guest then runs to the `popf` of a task switch with a kernel stack for which an
  -- address is found, and leaves the flags of its interceptions and the interceptions of control
  -- registers alone, so is that exit, after which the interceptions that the user has asked for
  -- are on.
  pub handle_vmexit-enable :
      (fuel : ℕ) (stack : Stack) (vm : Vm) (k : Kept)
      → bit_and vm.cr4 x86_cr4_pae ≡ 0
      → vm.exitcode ≡ 129
      → vm.regs.g_rbx ≡ 0
      → (vm1 : Vm) × (k1 : Kept) × (vm3 : Vm) × (k3 : Kept) × (handle_vmexit fuel stack vm k
          ≡ ok (vm1, k1))
        × (handle_vmexit fuel stack (guest_runs vm1) k1 ≡ ok (vm3, k3))
        × CarriedOut (u32 vm.regs.g_rcx) vm3.guest
  handle_vmexit-enable fuel stack vm k legacy call enable =
      let ((vm1, k1), first) =
        is_ok-Returns (handle_vmexit fuel stack vm k)
          (enable-ok fuel stack vm k legacy call enable) in
      let at_popf = popf vm1 in
      let ((vm3, k3), second) =
        is_ok-Returns (handle_vmexit fuel stack (guest_runs vm1) k1)
          (popf-ok fuel stack (guest_runs vm1) k1 (legacy2 vm1) at_popf (stack_found vm1)) in
      let switches : bit (u32 vm.regs.g_rcx) 1 ≤ bit (guest_runs vm1).guest.cr_intercepts 19 =
        rw (keeps_switches vm1) (enabled_switches fuel stack vm vm1 k k1 first call enable) in
      let flags = keeps vm1 ∙ enabled_flags fuel stack vm vm1 k k1 first call enable in
      (
        vm1,
        k1,
        vm3,
        k3,
        first,
        second,
        rw (switched fuel stack (guest_runs vm1) vm3 k1 k3 second at_popf) (
            popf_enables (guest_runs vm1).guest (u32 vm.regs.g_rcx) vm.guest.itc_flag flags
              switches),
      )
