-- ===== src/Vmexit/Events.antt =====
-- The events that kernel/intercept.c injects into the guest.
use hv_sebek.Base.{
  ℕ, ◌-◌, ◌≤◌, ◌<◌, ◌≡◌, arith, Bool, ◌==◌, ◌&&◌, ◌||◌, not, bit_and, if◌then◌else◌, u32, add64,
}
use hv_sebek.Base.Run.{ok, is_ok-Returns}
use hv_sebek.Vmexit.{Vm, Kept, Event, read8}
use hv_sebek.Vmexit.Calls.Dispatch.{trap_return}
use hv_sebek.Vmexit.Handlers.{handle_exception, inject_exception}
use hv_sebek.Vmexit.Total.Exits.{exception-ok}

-- The exceptions that are not handed to the guest: a general protection fault stands for `sysenter`,
-- a debug exception for the end of a step, and a write to a protected page is stepped over.
abbrev pub stays_in_host : Vm → Bool
stays_in_host vm =
    vm.exitcode == 65
    || vm.exitcode == 77
    || vm.exitcode == 78
      && not (bit_and vm.exitinfo1 1 == 0)
      && not (bit_and vm.exitinfo1 2 == 0)
      && not (bit_and vm.guest.itc_flag 32 == 0)

abbrev pub exception_event : Vm → Event
exception_event vm = record vm.eventinj {
  vector = vm.exitcode - 64;
  type = 3;
  ev = 1;
  v = 1;
  errorcode = u32 vm.exitinfo1;
}

module _ (vm vm' : Vm) (k k' : Kept) (low : 64 ≤ vm.exitcode) (high : vm.exitcode ≤ 83)
    (returned : handle_exception vm k ≡ ok (vm', k')) where
  event_of : vm'.eventinj ≡ (if stays_in_host vm then vm.eventinj else exception_event vm)
  unfolding handle_exception inject_exception
  event_of = ground arith

-- Every exit by an exception is handled. An exception that does not stay in the host is injected
-- with its vector, which is below 20, and always with an error code; otherwise the event of the
-- guest stays.
pub handle_exception-event :
    (vm : Vm) (k : Kept)
    → 64 ≤ vm.exitcode
    → vm.exitcode ≤ 83
    → (vm' : Vm) × (k' : Kept) × (handle_exception vm k ≡ ok (vm', k'))
      × (vm'.eventinj ≡ (if stays_in_host vm then vm.eventinj else exception_event vm))
      × ((exception_event vm).vector < 20)
handle_exception-event vm k low high =
    let ((vm', k'), returned) = is_ok-Returns (handle_exception vm k) (exception-ok vm k) in
    (vm', k', returned, event_of vm vm' k k' low high returned, omega arith)

-- The guest behind a software interrupt: the interrupt of the second byte of its instruction is
-- injected, it goes on behind the instruction, and a system call sets the trap for its return.
pub record Injected (vm vm' : Vm) (ip_hp : ℕ) : Type 0 where
  pub event :
      vm'.eventinj
      ≡ record vm.eventinj { vector = read8 vm.guest.mem (add64 ip_hp 1); type = 4; ev = 0; v = 1 }
  pub rip : vm'.rip ≡ add64 vm.rip 2
  pub rax : vm'.rax ≡ vm.rax
  pub rsp : vm'.rsp ≡ vm.rsp
  pub regs : vm'.regs ≡ vm.regs
  pub guest :
      vm'.guest
      ≡ (if read8 vm.guest.mem (add64 ip_hp 1) == 0x80 then trap_return vm.guest else vm.guest)
