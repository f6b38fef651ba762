-- ===== src/Intercept/Skip.antt =====
-- The step over one instruction in kernel/intercept.c: an interception is switched off, the guest
-- runs one instruction under the trap flag, and the debug exception switches it on again.
use Prim.Native.Nat.{bit_or-bitwise}
use hv_sebek.Base.{
  ℕ, ◌<◌, ◌≡◌, ◌≢◌, refl, arith, true, false, ◌==◌, ◌&&◌, ◌||◌, bit_and, bit_or, if◌then◌else◌,
}
use hv_sebek.Base.Bits.{bit}
use hv_sebek.Intercept.{
  Guest, vm_enable_intercept, vm_disable_intercept, skip_intercpt_cur_instr, handle_debug_exception,
}
use hv_sebek.Intercept.Flags.{asked, vm_enable_intercept-bits, vm_disable_intercept-bits}

bit_or-zero : (y : ℕ) → bit_or 0 y ≡ y
bit_or-zero y = simp bit_or-bitwise (omega arith)

pub kept_flag :
    (g : Guest) (flags : ℕ) → (vm_disable_intercept g flags).itc_skip_flag ≡ g.itc_skip_flag
unfolding vm_disable_intercept
kept_flag g flags = refl

module _ (g : Guest) (flag : ℕ) (idle : g.itc_skip_flag ≡ 0) (some : flag ≢ 0)
    (untracked : (g.btrackcurrent == 0 || bit_and g.itc_flag 16 == 0) ≡ true) where
  off : Guest
  off = record (vm_disable_intercept g flag) { itc_skip_flag = flag }

  stepping : Guest
  stepping = vm_enable_intercept off 16

  on : Guest
  on = record (vm_enable_intercept stepping flag) { itc_skip_flag = 0 }

  skip_lem : skip_intercpt_cur_instr g flag ≡ stepping
  unfolding skip_intercpt_cur_instr stepping off
  skip_lem = rw (idle, bit_or-zero flag)

  debug_lem : handle_debug_exception stepping ≡ vm_disable_intercept on 16
  unfolding handle_debug_exception stepping off on
  debug_lem = let skipped : (flag == 0) ≡ false = ground arith in rw (skipped, untracked)

  stepped : handle_debug_exception (skip_intercpt_cur_instr g flag) ≡ vm_disable_intercept on 16
  stepped = rw skip_lem debug_lem

  module _ (k : ℕ) (small : k < 32) where
    -- With no step under way, and unless the process is tracked and its single steps are asked
    -- for: after some interceptions have been stepped over and the debug exception has been
    -- handled, these interceptions are on, those of debug exceptions and the trap flag are off,
    -- no other of the low 32 bits of these words has changed, and no step is under way.
    pub handle_debug_exception-skip :
        ((handle_debug_exception (skip_intercpt_cur_instr g flag)).itc_skip_flag ≡ 0)
        × (bit (handle_debug_exception (skip_intercpt_cur_instr g flag)).exception_intercepts k ≡ (
            if k == 1
            then 0
            else (if k == 14 && asked flag 5 then 1 else bit g.exception_intercepts k)))
        × (bit (handle_debug_exception (skip_intercpt_cur_instr g flag)).general1_intercepts k ≡ (
            if k == 21 && (asked flag 0 || asked flag 2) || k == 20 && asked flag 3
            then 1
            else bit g.general1_intercepts k))
        × (bit (handle_debug_exception (skip_intercpt_cur_instr g flag)).cr_intercepts k
            ≡ (if k == 19 && asked flag 1 then 1 else bit g.cr_intercepts k))
        × (bit (handle_debug_exception (skip_intercpt_cur_instr g flag)).rflags k
            ≡ (if k == 8 then 0 else bit g.rflags k))
    unfolding bit on stepping off
    handle_debug_exception-skip =
        let first = vm_disable_intercept-bits g flag k small in
        let second = vm_enable_intercept-bits off 16 k small in
        let third = vm_enable_intercept-bits stepping flag k small in
        let fourth = vm_disable_intercept-bits on 16 k small in
        rw stepped (
          kept_flag on 16,
          ground (arith, first.0, second.0, third.0, fourth.0),
          ground (arith, first.1, second.1, third.1, fourth.1),
          ground (arith, first.2, second.2, third.2, fourth.2),
          ground (arith, first.3, second.3, third.3, fourth.3),
        )
