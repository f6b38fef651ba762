-- ===== src/Vmexit/Total/Exits.antt =====
-- The handlers of exits in kernel/intercept.c return, and with it `handle_vmexit`.
use hv_sebek.Base.{
  ℕ, zero, suc, ◌<◌, ◌≡◌, ◌≢◌, refl, ap, arith, true, length, bit_and, Words, u32, add64,
}
use hv_sebek.Base.Run.{is_ok}
use hv_sebek.Legacy.{x86_cr4_pae}
use hv_sebek.Vmexit.{Vm, Kept}
use hv_sebek.Vmexit.Calls.Dispatch.{Stack}
use hv_sebek.Vmexit.Calls.Files.{bytes_from}
use hv_sebek.Vmexit.Handlers.{handle_exception, handle_swint}
use hv_sebek.Vmexit.Total.{ArgumentsFound, hphysic-ok}
use hv_sebek.Vmexit.Total.Calls.{handle_syscall-ok}

pub length-bytes_from : (n : ℕ) (mem : Words) (address : ℕ) → length (bytes_from n mem address) ≡ n
unfolding bytes_from
length-bytes_from zero mem address = refl
length-bytes_from (suc n) mem address = ap suc (length-bytes_from n mem (add64 address 1))

pub exception-ok : (vm : Vm) (k : Kept) → is_ok (handle_exception vm k) ≡ true
unfolding handle_exception
exception-ok vm k = ground arith

module _ (vm : Vm) (legacy : bit_and vm.cr4 x86_cr4_pae ≡ 0) where
  pub swint-ok :
      (fuel : ℕ) (stack : Stack) (k : Kept)
      → u32 vm.rax < 333
      → u32 vm.rax ≢ 11
      → ArgumentsFound vm
      → is_ok (handle_swint fuel stack vm k) ≡ true
  unfolding handle_swint
  swint-ok fuel stack k less other found = grind (
    arith,
    hphysic-ok vm legacy,
    λ (k' : Kept). handle_syscall-ok vm legacy found fuel stack k' less other,
  )
