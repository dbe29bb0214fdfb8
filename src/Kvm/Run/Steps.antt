-- ===== src/Kvm/Run/Steps.antt =====
-- A session with a processor on KVM: runs, and the reads and writes of its registers between them.
use virt.Base.{◌≡◌, true, ℕ, some}
use virt.Vm.Io.{IoHandlers}
use virt.Vp.Status.{VpExecutionStatus}
use virt.Vp.Reg.{Reg}
use virt.Vp.Registers.{RegValue}
use virt.Kvm.Vcpu.{Kernel, reg_read, reg_write}
use virt.Kvm.Vcpu.Coherence.{KernelLaws, Coherent, Shown}
use virt.Kvm.Vcpu.Invariant.{reg_read-Coherent, reg_write-Coherent, set_mxcsr-Coherent}
use virt.Kvm.State.{Exec, Calls}
use virt.Kvm.Controls.{set_mxcsr}
use virt.Kvm.Run.{run_impl}
use virt.Kvm.Run.Registers.{run_impl-Coherent, run_impl-Shown}

module _ {K W : Type 0} (k : Kernel K) (calls : Calls K) (h : IoHandlers W) where
  -- The states that a client of the processor can reach from `x`, while its runs succeed. The calls on
  -- registers may fail.
  pub data Session (x : Exec K W) : Exec K W → Type 0 where
    start : Session x x
    read :
        {y : Exec K W} (reg : Reg) (v : RegValue)
        → Session x y
        → Session x (record y { vcpu = (reg_read k y.vcpu reg v).1 })
    write :
        {y : Exec K W} (reg : Reg) (v : RegValue)
        → Session x y
        → Session x (record y { vcpu = (reg_write k reg v y.vcpu).1 })
    mxcsr :
        {y : Exec K W} (v : ℕ)
        → Session x y
        → Session x (record y { vcpu = (set_mxcsr k v y.vcpu).1 })
    ran :
        {y z : Exec K W}
        → Session x y
        → run_impl k calls h y ≡ some (VpExecutionStatus.ok, z)
        → Session x z

  Session-Coherent : {x y : Exec K W} → Coherent k x.vcpu → Session x y → Coherent k y.vcpu
  Session-Coherent held start = held
  Session-Coherent held (read {y = y} reg v s) =
      reg_read-Coherent k reg v y.vcpu (Session-Coherent held s)
  Session-Coherent held (write {y = y} reg v s) =
      reg_write-Coherent k reg v y.vcpu (Session-Coherent held s)
  Session-Coherent held (mxcsr {y = y} v s) =
      set_mxcsr-Coherent k v y.vcpu (Session-Coherent held s)
  Session-Coherent held (ran {y = y} {z = z} s e) = run_impl-Coherent k calls h y z e

  -- On a kernel that keeps what it is given (KernelLaws): let a run succeed, then any sequence of
  -- reads and writes of registers, writes of MXCSR and successful runs follow, and a further run
  -- succeed. Then that run enters the guest with the four register structures that were visible
  -- before it: the cached ones with all writes, or the kernel's own if nothing was fetched since
  -- the guest ran.
  pub run_impl-session :
      KernelLaws k
      → (w x y z : Exec K W) → run_impl k calls h w ≡ some (VpExecutionStatus.ok, x)
      → Session x y
      → run_impl k calls h y ≡ some (VpExecutionStatus.ok, z)
      → (s : K) × Shown k s y.vcpu
        × ((calls.run y.kvm_run s).0 ≡ true)
        × (z.vcpu.kernel ≡ (calls.run y.kvm_run s).2)
  run_impl-session laws w x y z first session last =
      run_impl-Shown k calls h laws y z
        (Session-Coherent (run_impl-Coherent k calls h w x first) session) last
