-- ===== src/Kvm/Run/Twice.antt =====
-- What StepImpl does with an exit for output.
use virt.Base.{◌^◌, ◌<◌, ◌≡◌, refl, true, false, some}
use virt.Vm.Io.{IoHandlers}
use virt.Vp.Status.{VpExecutionStatus, VmExitReason}
use virt.Kvm.Vcpu.{Kernel, update_registers}
use virt.Kvm.State.{KvmRun, GuestDebug, ExitReason, Exec, Calls}
use virt.Kvm.Exit.{sized, handle_io, handle_exit, handle_exec_result}
use virt.Kvm.Exit.Items.{items, io_writes, handle_io-out}
use virt.Kvm.Debug.{set_debug}
use virt.Kvm.Run.{enter_guest, run_impl, single_step, end_step, step_impl}

-- An exit for output, and what the callback is to be given.
pub record OutExit (r : KvmRun) : Type 0 where
  pub reason : r.exit_reason ≡ ExitReason.io
  pub out : r.out ≡ true
  pub size : sized r.size ≡ true
  pub count : r.count < 2 ^ 16

abbrev pub output : {W : Type 0} → IoHandlers W → KvmRun → W → W
output h r w = io_writes h r.port r.size (items r.page r.data_offset r.size r.count) w

module _ {K W : Type 0} (k : Kernel K) (calls : Calls K) (h : IoHandlers W) where
  handle_exit-io :
      (reason : ExitReason) (x : Exec K W) (r : KvmRun) (w : W)
      → reason ≡ ExitReason.io
      → handle_io h x.kvm_run x.world ≡ some (r, w)
      → handle_exit h reason x
        ≡ some (record x {
          exit_info = record x.exit_info { reason = VmExitReason.pio };
          kvm_run = r;
          world = w;
        })
  handle_exit-io reason x r w e done = rw (e, done)

  handle_exec_result-out :
      (x : Exec K W)
      → OutExit x.kvm_run
      → handle_exec_result h x
        ≡ some (record x {
          vcpu = record x.vcpu { regs_dirty = true };
          exit_info = record x.exit_info { reason = VmExitReason.pio };
          world = output h x.kvm_run x.world;
        })
  unfolding handle_exec_result
  handle_exec_result-out x o =
      handle_exit-io x.kvm_run.exit_reason (record x { vcpu = record x.vcpu { regs_dirty = true } })
        x.kvm_run (output h x.kvm_run x.world) o.reason
        (handle_io-out h x.kvm_run x.world o.size o.out o.count)

  -- The state after the exit's handler.
  abbrev after_out : Exec K W → Exec K W
  after_out x = record x {
    vcpu = record x.vcpu { regs_dirty = true };
    exit_info = record x.exit_info { reason = VmExitReason.pio };
    world = output h x.kvm_run x.world;
  }

  -- The state in which KVM_RUN returns.
  abbrev entered : Exec K W → KvmRun → K → Exec K W
  entered x r s = record x {
    kvm_run = r;
    vcpu = record (update_registers k x.vcpu).1 { kernel = s };
  }

  run_impl-out :
      (x : Exec K W) (r : KvmRun) (s : K)
      → (update_registers k x.vcpu).0 ≡ true
      → calls.run x.kvm_run (update_registers k x.vcpu).1.kernel ≡ (true, r, s)
      → OutExit r
      → run_impl k calls h x ≡ some (VpExecutionStatus.ok, after_out (entered x r s))
  unfolding run_impl enter_guest
  run_impl-out x r s sent ran o =
      let handled = handle_exec_result-out (entered x r s) o in rw (sent, ran, handled)

  set_debug-done :
      (x : Exec K W)
      → ((d : GuestDebug) (t : K) → (calls.set_guest_debug d t).0 ≡ true)
      → (set_debug calls x).0 ≡ true
  unfolding set_debug
  set_debug-done x debugs = debugs _ _

  end_step-out :
      (x : Exec K W)
      → ((d : GuestDebug) (t : K) → (calls.set_guest_debug d t).0 ≡ true)
      → OutExit x.kvm_run
      → (y : Exec K W) × (end_step k calls h (VpExecutionStatus.ok, x)
          ≡ some (VpExecutionStatus.ok, y))
        × (y.world ≡ output h x.kvm_run x.world)
  end_step-out x debugs o =
      let disabled = set_debug-done (single_step k calls h false x) debugs in
      let next = (set_debug calls (single_step k calls h false x)).1 in
      let handled : handle_exec_result h next ≡ some (after_out next) =
        unfold set_debug in handle_exec_result-out next o in
      (after_out next, rw (disabled, handled), unfold set_debug in refl)

  -- The state in which StepImpl runs the guest.
  abbrev pub armed : Exec K W → Exec K W
  armed x = (set_debug calls (single_step k calls h true x)).1

  -- Let the kernel accept every debug state, the registers be sent, and the guest leave for output
  -- of fewer than 2 ^ 16 items of 1, 2 or 4 bytes. Then StepImpl returns OK, and has called
  -- IOWrite for all the items twice over.
  pub step_impl-twice :
      (x : Exec K W) (r : KvmRun) (s : K)
      → ((d : GuestDebug) (t : K) → (calls.set_guest_debug d t).0 ≡ true)
      → (update_registers k (armed x).vcpu).0 ≡ true
      → calls.run (armed x).kvm_run (update_registers k (armed x).vcpu).1.kernel ≡ (true, r, s)
      → OutExit r
      → (y : Exec K W) × (step_impl k calls h x ≡ some (VpExecutionStatus.ok, y))
        × (y.world ≡ output h r (output h r x.world))
  unfolding step_impl
  step_impl-twice x r s debugs sent ran o =
      let (y, ended, world) = end_step-out (after_out (entered (armed x) r s)) debugs o in
      (
        y,
        rw
            (
              set_debug-done (single_step k calls h true x) debugs,
              run_impl-out (armed x) r s sent ran o,
            )
            ended,
        world,
      )
