-- ===== src/Kvm/Vcpu.antt =====
-- The registers of a virtual processor of KVM, of modules/kvm/src/kvm_vp.cpp: they are cached, written
-- to the kernel before the guest runs, and fetched from it after it has run. The kernel is a parameter.
pub mod Coherence
pub mod Invariant
use virt.Base.{ℕ, Bool, true, false, not, if◌then◌else◌, Option, none, some, List, [], ◌∷◌}
use virt.Vp.Status.{Failure, failed, unsupported}
use virt.Vp.Reg.{Reg}
use virt.Vp.Registers.{RegValue}
use virt.Kvm.Regs.{KvmRegs, KvmSregs, KvmDebugRegs, KvmFpu}
use virt.Kvm.Place.{Cache}
use virt.Kvm.Switch.{kvm_reg_read, kvm_reg_write}

-- The ioctls on registers, over the kernel's state. A getter is `none`, and a setter false, where the
-- ioctl returns a negative number.
pub record Kernel (K : Type 0) : Type 0 where
  pub get_regs : K → Option KvmRegs
  pub get_sregs : K → Option KvmSregs
  pub get_debug_regs : K → Option KvmDebugRegs
  pub get_fpu : K → Option KvmFpu
  pub set_regs : KvmRegs → K → Bool × K
  pub set_sregs : KvmSregs → K → Bool × K
  pub set_debug_regs : KvmDebugRegs → K → Bool × K
  pub set_fpu : KvmFpu → K → Bool × K

-- The register members of KvmVirtualProcessor, and the kernel.
pub record Vcpu (K : Type 0) : Type 0 where
  pub cache : Cache
  pub regs_dirty : Bool
  pub kernel : K

module _ {K : Type 0} (k : Kernel K) where
  -- One `if` of UpdateRegisters; `clear` sets its flag to false.
  abbrev flush :
      Bool
      → (Cache → K → Bool × K)
      → (Cache → Cache)
      → Vcpu K
      → (Vcpu K → Bool × Vcpu K)
      → Bool × Vcpu K
  flush false set clear vp next = next vp
  flush true set clear vp next =
      let (done, kernel) = set vp.cache vp.kernel in
      if done
      then next (record vp { cache = clear vp.cache; kernel = kernel })
      else (false, record vp { kernel = kernel })

  unfoldable pub update_registers : Vcpu K → Bool × Vcpu K
  update_registers vp =
      flush vp.cache.regs_changed (λ c. k.set_regs c.regs) (λ c. record c { regs_changed = false })
        vp
        (λ vp1.
          flush vp1.cache.sregs_changed (λ c. k.set_sregs c.sregs)
            (λ c. record c { sregs_changed = false }) vp1
            (λ vp2.
              flush vp2.cache.debug_regs_changed (λ c. k.set_debug_regs c.debug_regs)
                (λ c. record c { debug_regs_changed = false }) vp2
                (λ vp3.
                  flush vp3.cache.fpu_regs_changed (λ c. k.set_fpu c.fpu_regs)
                    (λ c. record c { fpu_regs_changed = false }) vp3 (λ vp4. (true, vp4)))))

  -- One ioctl of RefreshRegisters into its structure.
  abbrev fetch {ℓ} :
      {A : Type ℓ}
      → Option A
      → (A → Cache → Cache)
      → Vcpu K
      → (Vcpu K → Bool × Vcpu K)
      → Bool × Vcpu K
  fetch none set vp next = (false, vp)
  fetch (some a) set vp next = next (record vp { cache = set a vp.cache })

  unfoldable pub refresh_registers : Vcpu K → Bool × Vcpu K
  refresh_registers vp =
      if vp.regs_dirty
      then (fetch (k.get_regs vp.kernel) (λ r c. record c { regs = r }) vp
          (λ vp1.
            fetch (k.get_sregs vp.kernel) (λ r c. record c { sregs = r }) vp1
              (λ vp2.
                fetch (k.get_debug_regs vp.kernel) (λ r c. record c { debug_regs = r }) vp2
                  (λ vp3.
                    fetch (k.get_fpu vp.kernel) (λ r c. record c { fpu_regs = r }) vp3
                      (λ vp4. (true, record vp4 { regs_dirty = false }))))))
      else (true, vp)

  -- REFRESH_REGISTERS, and what follows it.
  unfoldable pub refreshed : Vcpu K → (Vcpu K → Option Failure × Vcpu K) → Option Failure × Vcpu K
  unfolding refresh_registers
  refreshed vp next =
      let (ok, vp') = refresh_registers vp in if ok then next vp' else (some failed, vp')

  -- The last component is the caller's value.
  unfoldable pub reg_read : Vcpu K → Reg → RegValue → Option Failure × Vcpu K × RegValue
  unfolding refresh_registers kvm_reg_read
  reg_read vp reg value =
      let (ok, vp') = refresh_registers vp in
      let (status, value') = kvm_reg_read vp'.cache reg value in
      if ok then (status, vp', value') else (some failed, vp', value)

  unfoldable pub reg_write : Reg → RegValue → Vcpu K → Option Failure × Vcpu K
  unfolding refreshed kvm_reg_write
  reg_write reg value vp = refreshed vp (λ vp'.
      let (status, cache) = kvm_reg_write reg value vp'.cache in
      (status, record vp' { cache = cache }))
