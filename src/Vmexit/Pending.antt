-- ===== src/Vmexit/Pending.antt =====
-- A step over one instruction stays under way until the debug exception, whatever exit of the guest
-- kernel/intercept.c handles in between.
use hv_sebek.Base.{ℕ, ◌≡◌, ◌≢◌, arith}
use hv_sebek.Base.Bits.{bit}
use hv_sebek.Base.Run.{ok}
use hv_sebek.Intercept.{Guest}
use hv_sebek.Intercept.Flags.{bit-set}
use hv_sebek.Intercept.Exits.Pending.{IsPending, handle_exit-IsPending}
use hv_sebek.Vmexit.{Vm, Kept}
use hv_sebek.Vmexit.Calls.Dispatch.{Stack, trap_return}
use hv_sebek.Vmexit.Handlers.{handle_vmexit}
use hv_sebek.Vmexit.Steps.{Step, same, by_exit, trapped, handle_vmexit-Step}

trap_return-IsPending : (g : Guest) → IsPending g → IsPending (trap_return g)
unfolding trap_return
trap_return-IsPending g p = record {
  steps = λ ne. ((p.steps ne).0, ground (arith, bit-set g.rflags 8 8));
}

Step-IsPending : (g g' : Guest) → Step g g' → IsPending g → IsPending g'
Step-IsPending g g' same p = p
Step-IsPending g g' (by_exit e) p = handle_exit-IsPending e g p
Step-IsPending g g' trapped p = trap_return-IsPending g p

-- Where the guest steps whenever a step is under way, it still does so after an exit that is
-- handled: debug exceptions are intercepted and the trap flag is set.
pub handle_vmexit-IsPending :
    (fuel : ℕ) (stack : Stack) (vm vm' : Vm) (k k' : Kept)
    → IsPending vm.guest
    → handle_vmexit fuel stack vm k ≡ ok (vm', k')
    → vm'.guest.itc_skip_flag ≢ 0
    → (bit vm'.guest.exception_intercepts 1 ≡ 1) × (bit vm'.guest.rflags 8 ≡ 1)
handle_vmexit-IsPending fuel stack vm vm' k k' p returned =
    (Step-IsPending vm.guest vm'.guest (handle_vmexit-Step fuel stack vm vm' k k' returned) p).steps
