-- ===== src/Kvm/Run/Registers.antt =====
-- What registers the guest runs with.
use mathlib.Core.Path.{subst}
use virt.Base.{◌≡◌, refl, ap, sym, ◌∙◌, true, Option, none, some, arith}
use virt.Vm.Io.{IoHandlers}
use virt.Vp.Status.{VpExecutionStatus, VmExitReason}
use virt.Kvm.Vcpu.{Kernel, Vcpu, update_registers}
use virt.Kvm.Vcpu.Coherence.{KernelLaws, Coherent, Shown, update_registers-Shown}
use virt.Kvm.Vcpu.Invariant.{ran-Coherent}
use virt.Kvm.State.{ExitReason, KvmRun, Exec, Calls}
use virt.Kvm.Exit.{handled, handle_io, handle_mmio, handle_exit, handle_exec_result}
use virt.Kvm.Run.{enter_guest, run_impl}

abbrev vcpu_or : {K W : Type 0} → Vcpu K → Option (Exec K W) → Vcpu K
vcpu_or v none = v
vcpu_or v (some x) = x.vcpu

module _ {K W : Type 0} (h : IoHandlers W) where
  handled-vcpu :
      (reason : VmExitReason) (o : Option (KvmRun × W)) (x : Exec K W)
      → vcpu_or x.vcpu (handled h reason o x) ≡ x.vcpu
  handled-vcpu reason none x = refl
  handled-vcpu reason (some (r, w)) x = refl

  handle_exit-vcpu :
      (reason : ExitReason) (x : Exec K W) → vcpu_or x.vcpu (handle_exit h reason x) ≡ x.vcpu
  handle_exit-vcpu ExitReason.io x = handled-vcpu VmExitReason.pio (handle_io h x.kvm_run x.world) x
  handle_exit-vcpu ExitReason.mmio x =
      handled-vcpu VmExitReason.mmio (handle_mmio h x.kvm_run x.world) x
  handle_exit-vcpu ExitReason.debug x = ground arith
  handle_exit-vcpu _ x = refl

  -- The exit's handler only marks the cached registers as out of date.
  handle_exec_result-vcpu :
      (x y : Exec K W)
      → handle_exec_result h x ≡ some y
      → y.vcpu ≡ record x.vcpu { regs_dirty = true }
  unfolding handle_exec_result
  handle_exec_result-vcpu x y e =
      let marked = record x.vcpu { regs_dirty = true } in
      sym (ap (λ o. vcpu_or marked o) e)
      ∙ handle_exit-vcpu x.kvm_run.exit_reason (record x { vcpu = marked })

module _ {K W : Type 0} (k : Kernel K) (calls : Calls K) (h : IoHandlers W) where
  -- A run that succeeds has sent its registers, and entered the guest.
  pub run_impl-entered :
      (x y : Exec K W)
      → run_impl k calls h x ≡ some (VpExecutionStatus.ok, y)
      → ((update_registers k x.vcpu).0 ≡ true)
        × ((calls.run x.kvm_run (update_registers k x.vcpu).1.kernel).0 ≡ true)
        × (y.vcpu ≡ record (update_registers k x.vcpu).1 {
          kernel = (calls.run x.kvm_run (update_registers k x.vcpu).1.kernel).2;
          regs_dirty = true;
        })
  unfolding run_impl enter_guest
  run_impl-entered x y e = grind (arith, handle_exec_result-vcpu h)

  -- After a run that succeeds the cache is coherent, whatever it was before.
  pub run_impl-Coherent :
      (x y : Exec K W) → run_impl k calls h x ≡ some (VpExecutionStatus.ok, y) → Coherent k y.vcpu
  run_impl-Coherent x y e =
      let (sent, _, after) = run_impl-entered x y e in
      subst (λ v. Coherent k v) (sym after) (ran-Coherent k x.vcpu _ sent)

  -- The guest is entered with the registers that were visible.
  pub run_impl-Shown :
      KernelLaws k
      → (x y : Exec K W) → Coherent k x.vcpu
      → run_impl k calls h x ≡ some (VpExecutionStatus.ok, y)
      → (s : K) × Shown k s x.vcpu
        × ((calls.run x.kvm_run s).0 ≡ true)
        × (y.vcpu.kernel ≡ (calls.run x.kvm_run s).2)
  run_impl-Shown laws x y held e =
      let (sent, entered, after) = run_impl-entered x y e in
      (
        (update_registers k x.vcpu).1.kernel,
        update_registers-Shown k laws x.vcpu held sent,
        entered,
        ap (λ v. v.kernel) after,
      )
