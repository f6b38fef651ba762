-- ===== src/Intercept.antt =====
-- The interceptions that are switched on and off for a guest: `vm_enable_intercept`,
-- `vm_disable_intercept` and the protection of page tables in kernel/vm.c, the flags of
-- include/user.h and include/intercept.h, and in kernel/intercept.c the step over one instruction,
-- the debug exception that ends it, and the handler of a write to CR3.
pub mod Flags
pub mod Protect
pub mod Skip
pub mod Exits
use hv_sebek.Base.{
  ℕ, zero, suc, ◌+◌, ◌-◌, ◌*◌, ◌%◌, ◌^◌, Bool, bit_and, bit_or, ◌==◌, not, ◌||◌, if◌then◌else◌,
  Words, update, add64,
}

-- The fields of `struct vm_info` and of its `struct vmcb` that the interceptions stand in, beside
-- memory as 32-bit words by byte address.
pub record Guest : Type 0 where
  pub cr_intercepts : ℕ
  pub exception_intercepts : ℕ
  pub general1_intercepts : ℕ
  pub rflags : ℕ
  pub cr3 : ℕ
  pub mem : Words
  pub itc_flag : ℕ
  pub itc_skip_flag : ℕ
  pub btrackcurrent : ℕ

abbrev pub user_itc_swint : ℕ
user_itc_swint = 2 ^ 0

abbrev pub user_itc_taskswitch : ℕ
user_itc_taskswitch = 2 ^ 1

abbrev pub user_itc_syscall : ℕ
user_itc_syscall = 2 ^ 2

abbrev pub user_itc_iret : ℕ
user_itc_iret = 2 ^ 3

abbrev pub user_single_stepping : ℕ
user_single_stepping = 2 ^ 4

abbrev pub user_unpack : ℕ
user_unpack = 2 ^ 5

abbrev pub intrcpt_write_cr3 : ℕ
intrcpt_write_cr3 = 2 ^ 19

abbrev pub intrcpt_db : ℕ
intrcpt_db = 2 ^ 1

abbrev pub intrcpt_pf : ℕ
intrcpt_pf = 2 ^ 14

abbrev pub intrcpt_iret : ℕ
intrcpt_iret = 2 ^ 20

abbrev pub intrcpt_popf : ℕ
intrcpt_popf = 2 ^ 17

abbrev pub intrcpt_intn : ℕ
intrcpt_intn = 2 ^ 21

abbrev pub x86_rflags_tf : ℕ
x86_rflags_tf = 2 ^ 8

abbrev pub pttef_rw_bit : ℕ
pttef_rw_bit = 2 ^ 1

-- `word &= ~flag`, at 32 and at 64 bits.
abbrev pub clear32 : ℕ → ℕ → ℕ
clear32 word flag = bit_and word (2 ^ 32 - 1 - flag)

abbrev pub clear64 : ℕ → ℕ → ℕ
clear64 word flag = bit_and word (2 ^ 64 - 1 - flag)

-- The loops over the 1024 entries of a page directory, from `index` on with so many rounds left.
unfoldable pub protect_from : ℕ → ℕ → ℕ → Words → Words
protect_from zero index cr3 mem = mem
protect_from (suc rounds) index cr3 mem =
    let entry = add64 cr3 (index * 4) in
    protect_from rounds (index + 1) cr3 (update mem entry (clear32 (mem entry) pttef_rw_bit))

unfoldable pub unprotect_from : ℕ → ℕ → ℕ → Words → Words
unprotect_from zero index cr3 mem = mem
unprotect_from (suc rounds) index cr3 mem =
    let entry = add64 cr3 (index * 4) in
    unprotect_from rounds (index + 1) cr3 (update mem entry (bit_or (mem entry) pttef_rw_bit))

unfoldable pub vm_protect_all_non_pae_page : ℕ → Words → Words
vm_protect_all_non_pae_page cr3 mem = protect_from 1024 0 cr3 mem

unfoldable pub vm_unprotect_non_pae_page : ℕ → Words → Words
vm_unprotect_non_pae_page cr3 mem = unprotect_from 1024 0 cr3 mem

-- `flags` is read bit by bit; each field is written by the statements that change it, in their
-- order.
unfoldable pub vm_disable_intercept : Guest → ℕ → Guest
vm_disable_intercept g flags =
    let asked : ℕ → Bool = λ flag. not (bit_and flags flag == 0) in
    record g {
      exception_intercepts =
          let unpacked =
            if asked user_unpack
            then clear32 g.exception_intercepts intrcpt_pf
            else g.exception_intercepts in
          if asked user_single_stepping then clear32 unpacked intrcpt_db else unpacked;
      mem = if asked user_unpack then vm_unprotect_non_pae_page g.cr3 g.mem else g.mem;
      cr_intercepts =
          if asked user_itc_taskswitch
          then clear32 g.cr_intercepts intrcpt_write_cr3
          else g.cr_intercepts;
      general1_intercepts =
          let swint =
            if asked user_itc_swint
            then clear32 g.general1_intercepts intrcpt_intn
            else g.general1_intercepts in
          let iret = if asked user_itc_iret then clear32 swint intrcpt_iret else swint in
          if asked user_itc_syscall then clear32 iret intrcpt_intn else iret;
      rflags = if asked user_single_stepping then clear64 g.rflags x86_rflags_tf else g.rflags;
    }

unfoldable pub vm_enable_intercept : Guest → ℕ → Guest
vm_enable_intercept g flags =
    let asked : ℕ → Bool = λ flag. not (bit_and flags flag == 0) in
    record g {
      exception_intercepts =
          let unpacking =
            if asked user_unpack
            then bit_or g.exception_intercepts intrcpt_pf
            else g.exception_intercepts in
          if asked user_single_stepping then bit_or unpacking intrcpt_db else unpacking;
      mem = if asked user_unpack then vm_protect_all_non_pae_page g.cr3 g.mem else g.mem;
      cr_intercepts =
          if asked user_itc_taskswitch
          then bit_or g.cr_intercepts intrcpt_write_cr3
          else g.cr_intercepts;
      general1_intercepts =
          let swint =
            if asked user_itc_swint
            then bit_or g.general1_intercepts intrcpt_intn
            else g.general1_intercepts in
          let iret = if asked user_itc_iret then bit_or swint intrcpt_iret else swint in
          if asked user_itc_syscall then bit_or iret intrcpt_intn else iret;
      rflags = if asked user_single_stepping then bit_or g.rflags x86_rflags_tf else g.rflags;
    }

-- `__skip_intercpt_cur_instr`: the guest executes one instruction without the interception.
unfoldable pub skip_intercpt_cur_instr : Guest → ℕ → Guest
unfolding vm_disable_intercept vm_enable_intercept
skip_intercpt_cur_instr g flag =
    let off = vm_disable_intercept g flag in
    vm_enable_intercept (record off { itc_skip_flag = bit_or off.itc_skip_flag flag })
      user_single_stepping

-- The case of the debug exception in `__handle_vm_exception`, which ends the step.
unfoldable pub handle_debug_exception : Guest → Guest
unfolding vm_disable_intercept vm_enable_intercept
handle_debug_exception g =
    let on = record (vm_enable_intercept g g.itc_skip_flag) { itc_skip_flag = 0 } in
    if g.itc_skip_flag == 0
    then g
    else (if on.btrackcurrent == 0 || bit_and on.itc_flag user_single_stepping == 0
        then vm_disable_intercept on user_single_stepping
        else on)

-- `__handle_cr3_write`: the next `popf` is intercepted, and this write is stepped over.
unfoldable pub handle_cr3_write : Guest → Guest
unfolding skip_intercpt_cur_instr
handle_cr3_write g =
    skip_intercpt_cur_instr
      (record g { general1_intercepts = bit_or g.general1_intercepts intrcpt_popf })
      user_itc_taskswitch
