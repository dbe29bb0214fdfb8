-- ===== src/Haxm/Msrs.antt =====
-- Model-specific registers in bulk on HAXM: GetMSRs and SetMSRs of modules/haxm/src/common/haxm_vp.cpp. The
-- driver takes up to HAX_MAX_MSR_ARRAY registers in a call. The arrays are the memory from their addresses
-- on, which the code may leave behind.
pub mod Chunks
use virt.Base.{
  ℕ, zero, suc, ◌+◌, ◌-◌, ltb, leb, Bool, ◌&&◌, if◌then◌else◌, Option, none, some, List, [], ◌∷◌,
}
use virt.Vp.Status.{Failure, failed, invalid_arguments}

-- GetMSRData, whose result gives the value of each entry, and SetMSRData.
pub record MsrDriver (K : Type 0) : Type 0 where
  pub get_msr_data : List ℕ → K → Option (ℕ → ℕ)
  pub set_msr_data : List (ℕ × ℕ) → K → Bool × K

-- The turns of the inner loops: `i < numRegs && i < HAX_MAX_MSR_ARRAY`.
abbrev pub width : ℕ → ℕ
width num_regs = if ltb num_regs 32 then num_regs else 32

-- `n` elements from an index on.
abbrev pub part {ℓ} : {A : Type ℓ} → (ℕ → A) → ℕ → ℕ → List A
part array index zero = []
part array index (suc n) = array index ∷ part array (index + 1) n

module _ {K : Type 0} (driver : MsrDriver K) where
  -- The outer loop from an index on; `none` is a loop that ran out of its fuel.
  unfoldable pub set_loop : (ℕ → ℕ × ℕ) → ℕ → ℕ → ℕ → K → Option (Option Failure × K)
  set_loop entries num_regs zero index s = none
  set_loop entries num_regs (suc fuel) index s =
      let (done, s') = driver.set_msr_data (part entries index (width num_regs)) s in
      let rest = set_loop entries num_regs fuel (index + width num_regs) s' in
      if ltb index num_regs then (if done then rest else some (some failed, s')) else some (none, s)

  -- `null` is that one of the arrays is a null pointer.
  unfoldable pub set_msrs : Bool → (ℕ → ℕ × ℕ) → ℕ → K → Option (Option Failure × K)
  unfolding set_loop
  set_msrs null entries num_regs s =
      if null
      then some (some invalid_arguments, s)
      else set_loop entries num_regs (num_regs + 1) 0 s

  -- What is read replaces the values from the index on.
  abbrev pub filled : (ℕ → ℕ) → ℕ → ℕ → (ℕ → ℕ) → ℕ → ℕ
  filled values index n got j =
      if leb index j && ltb j (index + n) then got (j - index) else values j

  unfoldable pub get_loop : (ℕ → ℕ) → ℕ → ℕ → ℕ → (ℕ → ℕ) → K → Option (Option Failure × (ℕ → ℕ))
  get_loop msrs num_regs zero index values s = none
  get_loop msrs num_regs (suc fuel) index values s =
      let rest = λ (got : ℕ → ℕ).
        get_loop msrs num_regs fuel (index + width num_regs)
          (filled values index (width num_regs) got) s in
      if ltb index num_regs
      then (elim (driver.get_msr_data (part msrs index (width num_regs)) s) [
        | none ↦ some (some failed, values)
        | some got ↦ rest got
      ])
      else some (none, values)

  unfoldable pub get_msrs : Bool → (ℕ → ℕ) → ℕ → (ℕ → ℕ) → K → Option (Option Failure × (ℕ → ℕ))
  unfolding get_loop
  get_msrs null msrs num_regs values s =
      if null
      then some (some invalid_arguments, values)
      else get_loop msrs num_regs (num_regs + 1) 0 values s

  unfoldable pub get_msr : ℕ → ℕ → K → Option Failure × ℕ
  get_msr msr value s = elim (driver.get_msr_data (msr ∷ []) s) [
    | none ↦ (some failed, value)
    | some values ↦ (none, values 0)
  ]

  unfoldable pub set_msr : ℕ → ℕ → K → Option Failure × K
  set_msr msr value s =
      let (done, s') = driver.set_msr_data ((msr, value) ∷ []) s in
      (if done then none else some failed, s')
