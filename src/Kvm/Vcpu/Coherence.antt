-- ===== src/Kvm/Vcpu/Coherence.antt =====
-- The cache of registers: what the guest runs with is what the program would have read before, and no
-- write is lost.
use virt.Base.{◌≡◌, true, false, if◌then◌else◌, Option, some, arith}
use virt.Kvm.Regs.{KvmRegs, KvmSregs, KvmDebugRegs, KvmFpu}
use virt.Kvm.Place.{Cache}
use virt.Kvm.Vcpu.{Kernel, Vcpu, update_registers}

-- What KVM's documentation says of the ioctls: a getter returns what the last successful setter of the
-- same structure was given, and a setter does not act on the other structures, nor if it fails.
pub record KernelLaws {K : Type 0} (k : Kernel K) : Type 0 where
  pub regs_set :
      (r : KvmRegs) (s : K) → (k.set_regs r s).0 ≡ true → k.get_regs (k.set_regs r s).1 ≡ some r
  pub regs_failed :
      (r : KvmRegs) (s : K)
      → (k.set_regs r s).0 ≡ false
      → k.get_regs (k.set_regs r s).1 ≡ k.get_regs s
  pub regs_sregs : (r : KvmRegs) (s : K) → k.get_sregs (k.set_regs r s).1 ≡ k.get_sregs s
  pub regs_debug : (r : KvmRegs) (s : K) → k.get_debug_regs (k.set_regs r s).1 ≡ k.get_debug_regs s
  pub regs_fpu : (r : KvmRegs) (s : K) → k.get_fpu (k.set_regs r s).1 ≡ k.get_fpu s
  pub sregs_set :
      (r : KvmSregs) (s : K) → (k.set_sregs r s).0 ≡ true → k.get_sregs (k.set_sregs r s).1 ≡ some r
  pub sregs_failed :
      (r : KvmSregs) (s : K)
      → (k.set_sregs r s).0 ≡ false
      → k.get_sregs (k.set_sregs r s).1 ≡ k.get_sregs s
  pub sregs_regs : (r : KvmSregs) (s : K) → k.get_regs (k.set_sregs r s).1 ≡ k.get_regs s
  pub sregs_debug :
      (r : KvmSregs) (s : K) → k.get_debug_regs (k.set_sregs r s).1 ≡ k.get_debug_regs s
  pub sregs_fpu : (r : KvmSregs) (s : K) → k.get_fpu (k.set_sregs r s).1 ≡ k.get_fpu s
  pub debug_set :
      (r : KvmDebugRegs) (s : K)
      → (k.set_debug_regs r s).0 ≡ true
      → k.get_debug_regs (k.set_debug_regs r s).1 ≡ some r
  pub debug_failed :
      (r : KvmDebugRegs) (s : K)
      → (k.set_debug_regs r s).0 ≡ false
      → k.get_debug_regs (k.set_debug_regs r s).1 ≡ k.get_debug_regs s
  pub debug_regs : (r : KvmDebugRegs) (s : K) → k.get_regs (k.set_debug_regs r s).1 ≡ k.get_regs s
  pub debug_sregs :
      (r : KvmDebugRegs) (s : K) → k.get_sregs (k.set_debug_regs r s).1 ≡ k.get_sregs s
  pub debug_fpu : (r : KvmDebugRegs) (s : K) → k.get_fpu (k.set_debug_regs r s).1 ≡ k.get_fpu s
  pub fpu_set :
      (r : KvmFpu) (s : K) → (k.set_fpu r s).0 ≡ true → k.get_fpu (k.set_fpu r s).1 ≡ some r
  pub fpu_failed :
      (r : KvmFpu) (s : K) → (k.set_fpu r s).0 ≡ false → k.get_fpu (k.set_fpu r s).1 ≡ k.get_fpu s
  pub fpu_regs : (r : KvmFpu) (s : K) → k.get_regs (k.set_fpu r s).1 ≡ k.get_regs s
  pub fpu_sregs : (r : KvmFpu) (s : K) → k.get_sregs (k.set_fpu r s).1 ≡ k.get_sregs s
  pub fpu_debug : (r : KvmFpu) (s : K) → k.get_debug_regs (k.set_fpu r s).1 ≡ k.get_debug_regs s

module _ {K : Type 0} (k : Kernel K) where
  -- Fetched registers have no changes, and a cached structure without changes is the kernel's.
  pub record Coherent (vp : Vcpu K) : Type 0 where
    pub dirty_regs : vp.regs_dirty ≡ true → vp.cache.regs_changed ≡ false
    pub dirty_sregs : vp.regs_dirty ≡ true → vp.cache.sregs_changed ≡ false
    pub dirty_debug : vp.regs_dirty ≡ true → vp.cache.debug_regs_changed ≡ false
    pub dirty_fpu : vp.regs_dirty ≡ true → vp.cache.fpu_regs_changed ≡ false
    pub held_regs :
        vp.regs_dirty ≡ false
        → vp.cache.regs_changed ≡ false
        → k.get_regs vp.kernel ≡ some vp.cache.regs
    pub held_sregs :
        vp.regs_dirty ≡ false
        → vp.cache.sregs_changed ≡ false
        → k.get_sregs vp.kernel ≡ some vp.cache.sregs
    pub held_debug :
        vp.regs_dirty ≡ false
        → vp.cache.debug_regs_changed ≡ false
        → k.get_debug_regs vp.kernel ≡ some vp.cache.debug_regs
    pub held_fpu :
        vp.regs_dirty ≡ false
        → vp.cache.fpu_regs_changed ≡ false
        → k.get_fpu vp.kernel ≡ some vp.cache.fpu_regs

  -- What a read of the registers goes by: the cache, or the kernel if the guest has run.
  abbrev pub visible {ℓ} : {A : Type ℓ} → (K → Option A) → (Cache → A) → Vcpu K → Option A
  visible get cached vp = if vp.regs_dirty then get vp.kernel else some (cached vp.cache)

  -- The kernel's registers are those visible in `vp`.
  pub record Shown (s : K) (vp : Vcpu K) : Type 0 where
    pub regs : k.get_regs s ≡ visible k.get_regs (λ c. c.regs) vp
    pub sregs : k.get_sregs s ≡ visible k.get_sregs (λ c. c.sregs) vp
    pub debug : k.get_debug_regs s ≡ visible k.get_debug_regs (λ c. c.debug_regs) vp
    pub fpu : k.get_fpu s ≡ visible k.get_fpu (λ c. c.fpu_regs) vp

module _ {K : Type 0} (k : Kernel K) (laws : KernelLaws k) where
  update_registers-regs :
      (vp : Vcpu K)
      → Coherent k vp
      → (update_registers k vp).0 ≡ true
      → k.get_regs (update_registers k vp).1.kernel ≡ visible k k.get_regs (λ c. c.regs) vp
  unfolding update_registers
  update_registers-regs vp h ok = grind (
    arith, laws.regs_set, laws.sregs_regs, laws.debug_regs, laws.fpu_regs, h.dirty_regs,
    h.held_regs,
  )

  update_registers-sregs :
      (vp : Vcpu K)
      → Coherent k vp
      → (update_registers k vp).0 ≡ true
      → k.get_sregs (update_registers k vp).1.kernel ≡ visible k k.get_sregs (λ c. c.sregs) vp
  unfolding update_registers
  update_registers-sregs vp h ok = grind (
    arith, laws.regs_sregs, laws.sregs_set, laws.debug_sregs, laws.fpu_sregs, h.dirty_sregs,
    h.held_sregs,
  )

  update_registers-debug :
      (vp : Vcpu K)
      → Coherent k vp
      → (update_registers k vp).0 ≡ true
      → k.get_debug_regs (update_registers k vp).1.kernel
        ≡ visible k k.get_debug_regs (λ c. c.debug_regs) vp
  unfolding update_registers
  update_registers-debug vp h ok = grind (
    arith, laws.regs_debug, laws.sregs_debug, laws.debug_set, laws.fpu_debug, h.dirty_debug,
    h.held_debug,
  )

  update_registers-fpu :
      (vp : Vcpu K)
      → Coherent k vp
      → (update_registers k vp).0 ≡ true
      → k.get_fpu (update_registers k vp).1.kernel ≡ visible k k.get_fpu (λ c. c.fpu_regs) vp
  unfolding update_registers
  update_registers-fpu vp h ok =
      grind (
        arith, laws.regs_fpu, laws.sregs_fpu, laws.debug_fpu, laws.fpu_set, h.dirty_fpu, h.held_fpu,
      )

  -- x
  pub update_registers-Shown :
      (vp : Vcpu K)
      → Coherent k vp
      → (update_registers k vp).0 ≡ true
      → Shown k (update_registers k vp).1.kernel vp
  update_registers-Shown vp h ok = record {
    regs = update_registers-regs vp h ok;
    sregs = update_registers-sregs vp h ok;
    debug = update_registers-debug vp h ok;
    fpu = update_registers-fpu vp h ok;
  }
