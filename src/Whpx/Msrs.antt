-- ===== src/Whpx/Msrs.antt =====
-- Model-specific registers on WHPX: TranslateMSR of modules/whpx/src/whpx_regs.cpp, and GetMSR, SetMSR, GetMSRs
-- and SetMSRs of modules/whpx/src/whpx_vp.cpp.
pub mod Distinct
pub mod RoundTrip
use virt.Base.{
  ℕ, ◌==◌, Bool, true, false, ◌||◌, if◌then◌else◌, Option, none, some, List, [], ◌∷◌, ◌>>=◌,
}
use virt.Vp.Status.{Failure, failed, invalid_arguments, invalid_register}
use virt.Kvm.Regs.{Control}
use virt.Whpx.Names.{
  Name, Views, tsc, control, kernel_gs_base, apic_base, pat, sysenter_cs, sysenter_eip,
  sysenter_esp, star, lstar, cstar, sfmask, mtrr_cap, mtrr_def_type, mtrr_phys_base, mtrr_phys_mask,
  mtrr_fix, tsc_aux, spec_ctrl, pred_cmd,
}
use virt.Whpx.Dispatch.{Dispatch}

-- The cases: the MSR, whether it is in versions of WHPX before 10.0.17763.0, and the register.
abbrev pub msr_cases : List (ℕ × Bool × Name)
msr_cases =
    (0x10, true, tsc)
    ∷ (0xc000_0080, true, control Control.efer)
    ∷ (0xc000_0102, true, kernel_gs_base)
    ∷ (0x1b, true, apic_base)
    ∷ (0x277, true, pat)
    ∷ (0x174, true, sysenter_cs)
    ∷ (0x176, true, sysenter_eip)
    ∷ (0x175, true, sysenter_esp)
    ∷ (0xc000_0081, true, star)
    ∷ (0xc000_0082, true, lstar)
    ∷ (0xc000_0083, true, cstar)
    ∷ (0xc000_0084, true, sfmask)
    ∷ (0xfe, true, mtrr_cap)
    ∷ (0x2ff, true, mtrr_def_type)
    ∷ (0x200, true, mtrr_phys_base 0)
    ∷ (0x202, true, mtrr_phys_base 1)
    ∷ (0x204, true, mtrr_phys_base 2)
    ∷ (0x206, true, mtrr_phys_base 3)
    ∷ (0x208, true, mtrr_phys_base 4)
    ∷ (0x20a, true, mtrr_phys_base 5)
    ∷ (0x20c, true, mtrr_phys_base 6)
    ∷ (0x20e, true, mtrr_phys_base 7)
    ∷ (0x210, true, mtrr_phys_base 8)
    ∷ (0x212, true, mtrr_phys_base 9)
    ∷ (0x214, true, mtrr_phys_base 10)
    ∷ (0x216, true, mtrr_phys_base 11)
    ∷ (0x218, true, mtrr_phys_base 12)
    ∷ (0x21a, true, mtrr_phys_base 13)
    ∷ (0x21c, true, mtrr_phys_base 14)
    ∷ (0x21e, true, mtrr_phys_base 15)
    ∷ (0x201, true, mtrr_phys_mask 0)
    ∷ (0x203, true, mtrr_phys_mask 1)
    ∷ (0x205, true, mtrr_phys_mask 2)
    ∷ (0x207, true, mtrr_phys_mask 3)
    ∷ (0x209, true, mtrr_phys_mask 4)
    ∷ (0x20b, true, mtrr_phys_mask 5)
    ∷ (0x20d, true, mtrr_phys_mask 6)
    ∷ (0x20f, true, mtrr_phys_mask 7)
    ∷ (0x211, true, mtrr_phys_mask 8)
    ∷ (0x213, true, mtrr_phys_mask 9)
    ∷ (0x215, true, mtrr_phys_mask 10)
    ∷ (0x217, true, mtrr_phys_mask 11)
    ∷ (0x219, true, mtrr_phys_mask 12)
    ∷ (0x21b, true, mtrr_phys_mask 13)
    ∷ (0x21d, true, mtrr_phys_mask 14)
    ∷ (0x21f, true, mtrr_phys_mask 15)
    ∷ (0x250, true, mtrr_fix 0)
    ∷ (0x258, true, mtrr_fix 1)
    ∷ (0x259, true, mtrr_fix 2)
    ∷ (0x268, true, mtrr_fix 3)
    ∷ (0x269, true, mtrr_fix 4)
    ∷ (0x26a, true, mtrr_fix 5)
    ∷ (0x26b, true, mtrr_fix 6)
    ∷ (0x26c, true, mtrr_fix 7)
    ∷ (0x26d, true, mtrr_fix 8)
    ∷ (0x26e, true, mtrr_fix 9)
    ∷ (0x26f, true, mtrr_fix 10)
    ∷ (0xc000_0103, true, tsc_aux)
    ∷ (0x48, false, spec_ctrl)
    ∷ (0x49, false, pred_cmd)
    ∷ []

-- The first case for an MSR.
abbrev pub find_msr : Bool → List (ℕ × Bool × Name) → ℕ → Option Name
find_msr rs5 [] msr = none
find_msr rs5 ((number, old, name) ∷ rest) msr =
    let found = find_msr rs5 rest msr in
    if msr == number then (if old || rs5 then some name else none) else found

unfoldable pub translate_msr : Bool → ℕ → Option Name
translate_msr rs5 msr = find_msr rs5 msr_cases msr

abbrev pub translate_msrs : Bool → List ℕ → Option (List Name)
translate_msrs rs5 [] = some []
translate_msrs rs5 (m ∷ ms) =
    let rest = translate_msrs rs5 ms in
    translate_msr rs5 m >>= (λ n. rest >>= (λ ns. some (n ∷ ns)))

module _ {V : Type 0} (x : Views V) where
  -- The values of the caller's array, whose first ones are replaced.
  abbrev pub msr_values : List V → List ℕ → List ℕ
  msr_values (w ∷ ws) (_ ∷ vs) = x.reg64.get w ∷ msr_values ws vs
  msr_values _ vs = vs

  -- The hypervisor's array, which was not initialised.
  abbrev pub value_array : V → List ℕ → List V
  value_array fresh [] = []
  value_array fresh (v ∷ vs) = x.reg64.set v fresh ∷ value_array fresh vs

module _ {V K : Type 0} (x : Views V) (d : Dispatch V K) (rs5 : Bool) where
  -- `null` is that one of the arrays is a null pointer, and `allocated` that there is memory for the
  -- hypervisor's arrays.
  unfoldable pub get_msrs : Bool → Bool → K → List ℕ → List ℕ → Option Failure × List ℕ
  get_msrs null allocated k msrs values =
      if null
      then (some invalid_arguments, values)
      else if allocated
      then elim (translate_msrs rs5 msrs) [
        | none ↦ (some invalid_register, values)
        | some names ↦ elim (d.get_registers names k) [
          | none ↦ (some failed, values)
          | some ws ↦ (none, msr_values x ws values)
        ]
      ]
      else (some failed, values)

  -- What the hypervisor says is not looked at.
  unfoldable pub set_msrs : V → Bool → Bool → List ℕ → List ℕ → K → Option Failure × K
  set_msrs fresh null allocated msrs values k =
      if null
      then (some invalid_arguments, k)
      else if allocated
      then elim (translate_msrs rs5 msrs) [
        | none ↦ (some invalid_register, k)
        | some names ↦ (none, (d.set_registers names (value_array x fresh values) k).1)
      ]
      else (some failed, k)

  unfoldable pub get_msr : Bool → K → ℕ → ℕ → Option Failure × List ℕ
  unfolding get_msrs
  get_msr allocated k msr value = get_msrs false allocated k (msr ∷ []) (value ∷ [])

  unfoldable pub set_msr : V → Bool → ℕ → ℕ → K → Option Failure × K
  unfolding set_msrs
  set_msr fresh allocated msr value k = set_msrs fresh false allocated (msr ∷ []) (value ∷ []) k
