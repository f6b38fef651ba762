-- ===== src/Intercept/Exits/Pending.antt =====
-- While the step over an instruction is under way, the debug exception that ends it is on its way.
use hv_sebek.Base.{
  ℕ, ◌^◌, ◌≡◌, ◌≢◌, refl, ◌∙◌, arith, not, ◌==◌, ◌&&◌, ◌||◌, bit_and, bit_or, Bool-cases, inl, inr,
}
use hv_sebek.Base.Bits.{bit}
use hv_sebek.Intercept.{
  Guest, clear32, vm_enable_intercept, vm_disable_intercept, skip_intercpt_cur_instr,
  handle_debug_exception, handle_cr3_write,
}
use hv_sebek.Intercept.Flags.{vm_enable_intercept-bits}
use hv_sebek.Intercept.Skip.{kept_flag}
use hv_sebek.Intercept.Exits.{
  Exit, debug, page_fault, cr3_write, popf, iret, enable, disable, user_disable_intercept,
  handle_page_fault, handle_popf, handle_vm_iret, user_enable_intercept, handle_exit,
}

-- Debug exceptions are intercepted and the trap flag is set.
abbrev pub IsStepping : Guest → Type 0
IsStepping g = (bit g.exception_intercepts 1 ≡ 1) × (bit g.rflags 8 ≡ 1)

-- A step is under way only while the guest is stepping.
pub record IsPending (g : Guest) : Type 0 where
  pub steps : g.itc_skip_flag ≢ 0 → IsStepping g

enable-IsStepping :
    (g : Guest) (flags : ℕ) → IsStepping g → IsStepping (vm_enable_intercept g flags)
enable-IsStepping g flags s =
    let low = vm_enable_intercept-bits g flags 1 (omega arith) in
    let high = vm_enable_intercept-bits g flags 8 (omega arith) in
    (ground (arith, low.0, s.0), ground (arith, high.3, s.1))

step-IsStepping : (g : Guest) → IsStepping (vm_enable_intercept g 16)
unfolding bit
step-IsStepping g =
    let low = vm_enable_intercept-bits g 16 1 (omega arith) in
    let high = vm_enable_intercept-bits g 16 8 (omega arith) in (low.0, high.3)

skip-IsPending : (g : Guest) (flag : ℕ) → IsPending (skip_intercpt_cur_instr g flag)
unfolding skip_intercpt_cur_instr
skip-IsPending g flag = record {
  steps = λ ne. step-IsStepping (record (vm_disable_intercept g flag) {
    itc_skip_flag = bit_or (vm_disable_intercept g flag).itc_skip_flag flag;
  });
}

debug_ends : (g : Guest) → (handle_debug_exception g).itc_skip_flag ≡ 0
unfolding handle_debug_exception
debug_ends g =
    let on : Guest = record (vm_enable_intercept g g.itc_skip_flag) { itc_skip_flag = 0 } in
    elim (Bool-cases (g.itc_skip_flag == 0)) [
      | inl idle ↦ rw idle (ground (arith, idle))
      | inr busy ↦ elim (Bool-cases (on.btrackcurrent == 0 || bit_and on.itc_flag 16 == 0)) [
        | inl off ↦ rw (busy, off) (kept_flag on 16)
        | inr more ↦ rw (busy, more)
      ]
    ]

enabled_flag :
    (g : Guest) (flags : ℕ) → (vm_enable_intercept g flags).itc_skip_flag ≡ g.itc_skip_flag
unfolding vm_enable_intercept
enabled_flag g flags = refl

pub handle_exit-IsPending : (e : Exit) (g : Guest) → IsPending g → IsPending (handle_exit e g)
unfolding handle_exit
handle_exit-IsPending debug g p = record { steps = λ ne. absurd (ne (debug_ends g)) }
handle_exit-IsPending (page_fault exitinfo1) g p =
    unfold handle_page_fault in
    elim (Bool-cases (
      not (bit_and exitinfo1 1 == 0)
      && not (bit_and exitinfo1 2 == 0)
      && not (bit_and g.itc_flag 32 == 0))) [
        | inl hit ↦ rw hit (skip-IsPending g 32)
        | inr miss ↦ rw miss p
      ]
handle_exit-IsPending cr3_write g p =
    unfold handle_cr3_write in
    skip-IsPending (record g { general1_intercepts = bit_or g.general1_intercepts (2 ^ 17) }) 2
handle_exit-IsPending popf g p =
    unfold handle_popf in
    let seen : Guest = record g { general1_intercepts = clear32 g.general1_intercepts (2 ^ 17) } in
    let flags = clear32 g.itc_flag 2 in
    record {
      steps = λ ne. enable-IsStepping seen flags (p.steps (λ e. ne (enabled_flag seen flags ∙ e)));
    }
handle_exit-IsPending iret g p = unfold handle_vm_iret in skip-IsPending g 8
handle_exit-IsPending (enable flags) g p =
    unfold user_enable_intercept in record { steps = λ ne. p.steps ne }
handle_exit-IsPending (disable flags n) g p =
    unfold user_disable_intercept in record { steps = λ ne. p.steps ne }
