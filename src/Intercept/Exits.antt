-- ===== src/Intercept/Exits.antt =====
-- The exits of the guest that change its interceptions, as `handle_vmexit` of kernel/intercept.c
-- hands them to their handlers: page faults, `popf`, writes to CR3, `iret`, debug exceptions and
-- the commands of the guest's user that switch interceptions on and off. Of the handlers, what they do to
-- the fields of `Guest` is modelled; they also report, inject events and keep the tables.
pub mod Pending
use hv_sebek.Base.{ℕ, ◌+◌, ◌-◌, ◌*◌, ◌^◌, Bool, bit_and, bit_or, ◌==◌, not, ◌&&◌, if◌then◌else◌}
use hv_sebek.Tracking.Processes.{vm_is_process_tracked}
use hv_sebek.Intercept.{
  Guest, user_itc_taskswitch, user_itc_iret, user_unpack, intrcpt_write_cr3, intrcpt_popf, clear32,
  vm_enable_intercept, vm_disable_intercept, skip_intercpt_cur_instr, handle_debug_exception,
  handle_cr3_write,
}

pub data Exit : Type 0 where
  debug : Exit
  page_fault : ℕ → Exit
  cr3_write : Exit
  popf : Exit
  iret : Exit
  enable : ℕ → Exit
  disable : ℕ → ℕ → Exit

-- The case of the page fault, with the fault's error code: a write to a page that the host has
-- protected is stepped over.
unfoldable pub handle_page_fault : Guest → ℕ → Guest
handle_page_fault g exitinfo1 =
    let present = not (bit_and exitinfo1 1 == 0) in
    let written = not (bit_and exitinfo1 2 == 0) in
    let unpacking = not (bit_and g.itc_flag user_unpack == 0) in
    if present && written && unpacking then skip_intercpt_cur_instr g user_unpack else g

-- `__handle_popf`, the end of a task switch.
unfoldable pub handle_popf : Guest → Guest
handle_popf g =
    let seen : Guest = record g {
      general1_intercepts = clear32 g.general1_intercepts intrcpt_popf;
    } in
    let flags = clear32 g.itc_flag user_itc_taskswitch in
    if vm_is_process_tracked == 0
    then record (vm_disable_intercept seen flags) { btrackcurrent = 0 }
    else record (vm_enable_intercept seen flags) { btrackcurrent = 1 }

-- The end of `__handle_vm_iret`.
unfoldable pub handle_vm_iret : Guest → Guest
handle_vm_iret g = skip_intercpt_cur_instr g user_itc_iret

-- `user_enable_intercept`; `vm_add_tracked_process`, which it calls, returns at once, since the
-- process is tracked.
unfoldable pub user_enable_intercept : Guest → ℕ → Guest
user_enable_intercept g flags = record g {
  cr_intercepts =
      if bit_and flags user_itc_taskswitch == 0
      then g.cr_intercepts
      else bit_or g.cr_intercepts intrcpt_write_cr3;
  itc_flag = bit_or g.itc_flag flags;
}

-- `user_disable_intercept`, with the number of processes that are left in the list of the tracked
-- ones.
unfoldable pub user_disable_intercept : Guest → ℕ → ℕ → Guest
user_disable_intercept g flags n_tracked_process = record g {
  cr_intercepts =
      if not (bit_and flags user_itc_taskswitch == 0) && n_tracked_process == 0
      then clear32 g.cr_intercepts intrcpt_write_cr3
      else g.cr_intercepts;
  itc_flag = clear32 g.itc_flag flags;
}

unfoldable pub handle_exit : Exit → Guest → Guest
handle_exit debug g = handle_debug_exception g
handle_exit (page_fault exitinfo1) g = handle_page_fault g exitinfo1
handle_exit cr3_write g = handle_cr3_write g
handle_exit popf g = handle_popf g
handle_exit iret g = handle_vm_iret g
handle_exit (enable flags) g = user_enable_intercept g flags
handle_exit (disable flags n_tracked_process) g = user_disable_intercept g flags n_tracked_process
