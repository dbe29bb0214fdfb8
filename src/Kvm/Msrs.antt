-- ===== src/Kvm/Msrs.antt =====
-- Model-specific registers, and several registers at once, of modules/kvm/src/kvm_vp.cpp: GetMSR, SetMSR,
-- GetMSRs, SetMSRs, and the overloads of RegRead and RegWrite on arrays.
use virt.Base.{ℕ, Bool, if◌then◌else◌, Option, none, some, List, [], ◌∷◌, map, u32}
use virt.Vp.Status.{Failure, failed}
use virt.Vp.Reg.{Reg}
use virt.Vp.Registers.{RegValue}
use virt.Kvm.Place.{Cache}
use virt.Kvm.Switch.{kvm_reg_read, kvm_reg_write}
use virt.Kvm.Vcpu.{Kernel, Vcpu, refresh_registers, refreshed}

-- KVM_GET_MSRS gives the data fields of the entries afterwards, or `none` where the ioctl returns a negative
-- number; KVM_SET_MSRS is given indices and data. How many of them the ioctls report is not looked at.
pub record MsrCalls (K : Type 0) : Type 0 where
  pub get_msrs : List ℕ → K → Option (List ℕ)
  pub set_msrs : List (ℕ × ℕ) → K → Bool × K

module _ {K : Type 0} (calls : MsrCalls K) where
  -- The last components of the getters are the caller's value or values.
  unfoldable pub get_msrs : List ℕ → List ℕ → Vcpu K → Option Failure × List ℕ
  get_msrs msrs values vp = elim (calls.get_msrs (map u32 msrs) vp.kernel) [
    | none ↦ (some failed, values)
    | some read ↦ (none, read)
  ]

  abbrev first_or : ℕ → List ℕ → ℕ
  first_or value [] = value
  first_or value (x ∷ _) = x

  unfoldable pub get_msr : ℕ → ℕ → Vcpu K → Option Failure × ℕ
  get_msr msr value vp = elim (calls.get_msrs (u32 msr ∷ []) vp.kernel) [
    | none ↦ (some failed, value)
    | some read ↦ (none, first_or 0 read)
  ]

  unfoldable pub set_msrs : List (ℕ × ℕ) → Vcpu K → Option Failure × Vcpu K
  set_msrs entries vp =
      let (done, kernel) =
        calls.set_msrs (map (λ (msr, value). (u32 msr, value)) entries) vp.kernel in
      (if done then none else some failed, record vp { kernel = kernel })

  unfoldable pub set_msr : ℕ → ℕ → Vcpu K → Option Failure × Vcpu K
  set_msr msr value vp =
      let (done, kernel) = calls.set_msrs ((u32 msr, value) ∷ []) vp.kernel in
      (if done then none else some failed, record vp { kernel = kernel })

-- The loops of RegRead and RegWrite; each register stands with its value.
unfoldable pub read_all : Cache → List (Reg × RegValue) → Option Failure × List RegValue
unfolding kvm_reg_read
read_all c [] = (none, [])
read_all c ((reg, value) ∷ rest) =
    let (status, value') = kvm_reg_read c reg value in
    let (later, values) = read_all c rest in
    elim status [
      | none ↦ (later, value' ∷ values)
      | some failure ↦ (some failure, value' ∷ map (λ (_, v). v) rest)
    ]

unfoldable pub write_all : List (Reg × RegValue) → Cache → Option Failure × Cache
unfolding kvm_reg_write
write_all [] c = (none, c)
write_all ((reg, value) ∷ rest) c =
    let (status, c') = kvm_reg_write reg value c in
    let later = write_all rest c' in
    elim status [ none ↦ later | some failure ↦ (some failure, c') ]

module _ {K : Type 0} (k : Kernel K) where
  unfoldable pub reg_read_all :
      List (Reg × RegValue) → Vcpu K → Option Failure × Vcpu K × List RegValue
  unfolding refresh_registers read_all
  reg_read_all pairs vp =
      let (ok, vp') = refresh_registers k vp in
      let (status, values) = read_all vp'.cache pairs in
      if ok then (status, vp', values) else (some failed, vp', map (λ (_, v). v) pairs)

  unfoldable pub reg_write_all : List (Reg × RegValue) → Vcpu K → Option Failure × Vcpu K
  unfolding refreshed write_all
  reg_write_all pairs vp = refreshed k vp (λ vp'.
      let (status, cache) = write_all pairs vp'.cache in (status, record vp' { cache = cache }))
