-- ===== src/Kvm/Controls/Lost.antt =====
-- What becomes of the floating point control that SetFPUControl is given.
use virt.Base.{◌≡◌, true, false, none, arith}
use virt.Kvm.Vcpu.{Kernel, Vcpu, refresh_registers, refreshed, update_registers}
use virt.Kvm.Vcpu.Coherence.{KernelLaws, Coherent, visible}
use virt.Kvm.Controls.{FpuControl, set_fpu_control}

module _ {K : Type 0} (k : Kernel K) where
  -- On a kernel that keeps what it is given, let the cache be coherent and the floating point
  -- registers unchanged in it. If SetFPUControl returns OK and the registers are then sent, the
  -- kernel's floating point registers are those visible before the call: the new control is lost.
  pub set_fpu_control-lost :
      KernelLaws k
      → (v : FpuControl) (vp : Vcpu K) → Coherent k vp
      → vp.cache.fpu_regs_changed ≡ false
      → (set_fpu_control k v vp).0 ≡ none
      → (update_registers k (set_fpu_control k v vp).1).0 ≡ true
      → k.get_fpu (update_registers k (set_fpu_control k v vp).1).1.kernel
        ≡ visible k k.get_fpu (λ c. c.fpu_regs) vp
  unfolding refresh_registers refreshed set_fpu_control update_registers
  set_fpu_control-lost laws v vp held unchanged done sent =
      grind (arith, laws.regs_fpu, laws.sregs_fpu, laws.debug_fpu, held.held_fpu)
