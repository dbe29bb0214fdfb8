-- ===== src/Whpx/Run.antt =====
-- Execution on WHPX, of modules/whpx/src/whpx_vp.cpp: RunImpl with the handlers of exits, the callbacks of the
-- instruction emulator, and the interrupts, as the backend of the processor that modules/core drives.
pub mod Overwritten
use virt.Base.{
  ℕ, ◌==◌, ◌||◌, ◌&&◌, Bool, true, if◌then◌else◌, Option, none, some, List, [], ◌∷◌, ◌>>=◌,
}
use virt.Vm.Io.{IoHandlers, io_read, io_write, mmio_read, mmio_write}
use virt.Vp.Layout.{load, store}
use virt.Vp.Status.{Failure, failed, VpExecutionStatus, VmExitReason}
use virt.Vp.Interrupts.{Backend}
use virt.Whpx.Names.{pending_interruption}
use virt.Whpx.Dispatch.{Dispatch}
use virt.Whpx.Controls.{first}
use virt.Whpx.State.{
  ExitReason, ExitInfo, IoAccess, MemoryAccess, Callbacks, RunCalls, PendingViews, WhpxVp,
}

-- The callbacks. WHV_IO_IN is 0.
module _ {W : Type 0} (h : IoHandlers W) where
  unfoldable pub handle_io_access : IoAccess → W → IoAccess × W
  unfolding io_read io_write
  handle_io_access a w =
      if a.direction == 0
      then (let (value, w') = io_read h a.port a.access_size w in (record a { value = value }, w'))
      else (a, io_write h a.port a.access_size a.value w)

  abbrev pub known_size : ℕ → Bool
  known_size size = size == 1 || size == 2 || size == 4 || size == 8

  unfoldable pub handle_mmio_access : MemoryAccess → W → Option (MemoryAccess × W)
  unfolding mmio_read mmio_write
  handle_mmio_access a w =
      let (value, w') = mmio_read h a.gpa_address a.access_size w in
      let written = mmio_write h a.gpa_address a.access_size (load a.bytes 0 a.access_size) w in
      if known_size a.access_size
      then (if a.direction == 0
          then some (record a { bytes = store a.bytes 0 a.access_size value }, w')
          else some (a, written))
      else none

  unfoldable pub emulator_callbacks : Callbacks W
  unfolding handle_io_access handle_mmio_access
  emulator_callbacks = record { io_port = handle_io_access; memory = handle_mmio_access }

module _ {V C K W : Type 0} (calls : RunCalls C K W) (d : Dispatch V K) (p : PendingViews V)
    (fresh : V) (h : IoHandlers W) where
  abbrev with_reason : VmExitReason → WhpxVp C K W → WhpxVp C K W
  with_reason reason vp = record vp { exit_info = record vp.exit_info { reason = reason } }

  -- What follows a call of the emulator.
  abbrev emulated :
      VmExitReason
      → WhpxVp C K W
      → Option ((Bool × Bool) × (K × W))
      → Option (VpExecutionStatus × WhpxVp C K W)
  emulated reason vp none = none
  emulated reason vp (some ((done, successful), (k, w))) =
      let vp' = record vp { kernel = k; world = w } in
      if done && successful
      then some (VpExecutionStatus.ok, with_reason reason vp')
      else some (VpExecutionStatus.failed, vp')

  unfoldable pub handle_io : WhpxVp C K W → Option (VpExecutionStatus × WhpxVp C K W)
  unfolding emulator_callbacks
  handle_io vp =
      emulated VmExitReason.pio vp
        (calls.try_io (emulator_callbacks h) vp.exit_context.packets (vp.kernel, vp.world))

  unfoldable pub handle_mmio : WhpxVp C K W → Option (VpExecutionStatus × WhpxVp C K W)
  unfolding emulator_callbacks
  handle_mmio vp =
      emulated VmExitReason.mmio vp
        (calls.try_mmio (emulator_callbacks h) vp.exit_context.packets (vp.kernel, vp.world))

  unfoldable pub handle_msr_access : WhpxVp C K W → WhpxVp C K W
  handle_msr_access vp = record vp {
    exit_info = record vp.exit_info {
      reason = VmExitReason.msr_access;
      msr = vp.exit_context.msr_access;
    };
  }

  unfoldable pub handle_cpuid_access : WhpxVp C K W → WhpxVp C K W
  handle_cpuid_access vp = record vp {
    exit_info = record vp.exit_info {
      reason = VmExitReason.cpuid;
      cpuid = vp.exit_context.cpuid_access;
    };
  }

  -- The switch over the reason of an exit.
  unfoldable pub handle_exit : WhpxVp C K W → Option (VpExecutionStatus × WhpxVp C K W)
  unfolding handle_io handle_mmio handle_msr_access handle_cpuid_access
  handle_exit vp =
      let finish : WhpxVp C K W → Option (VpExecutionStatus × WhpxVp C K W) =
        λ vp'. some (VpExecutionStatus.ok, vp') in
      elim vp.exit_context.exit_reason [
        | ExitReason.halt ↦ finish (with_reason VmExitReason.hlt vp)
        | ExitReason.msr_access ↦ finish (handle_msr_access vp)
        | ExitReason.cpuid ↦ finish (handle_cpuid_access vp)
        | ExitReason.io_port_access ↦ handle_io vp
        | ExitReason.memory_access ↦ handle_mmio vp
        | ExitReason.interrupt_window ↦ finish (with_reason VmExitReason.interrupt vp)
        | ExitReason.canceled ↦ finish (with_reason VmExitReason.cancelled vp)
        | ExitReason.none ↦ finish (with_reason VmExitReason.normal vp)
        | ExitReason.exception ↦ finish (with_reason VmExitReason.exception vp)
        | ExitReason.unsupported_feature ↦ finish (with_reason VmExitReason.error vp)
        | ExitReason.invalid_vp_register_value ↦ finish (with_reason VmExitReason.error vp)
        | ExitReason.unrecoverable_exception ↦ finish (with_reason VmExitReason.error vp)
        | ExitReason.other ↦ finish (with_reason VmExitReason.unhandled vp)
      ]

  unfoldable pub run_impl : WhpxVp C K W → Option (VpExecutionStatus × WhpxVp C K W)
  unfolding handle_exit
  run_impl vp =
      let (result, k) = calls.run vp.kernel in
      let vp' = record vp { kernel = k } in
      elim result [
        | none ↦ some (VpExecutionStatus.failed, vp')
        | some context ↦ handle_exit (record vp' { exit_context = context })
      ]

  unfoldable pub prepare_interrupt : K → Bool × K
  prepare_interrupt k = calls.cancel_run k

  abbrev pub with_interrupt : ℕ → V → V
  with_interrupt vector w =
      p.interruption_vector.set vector
        (p.interruption_type.set p.pending_interrupt (p.interruption_pending.set p.one w))

  unfoldable pub inject_interrupt : ℕ → K → Option Failure × K
  inject_interrupt vector k = elim (d.get_registers (pending_interruption ∷ []) k) [
    | none ↦ (some failed, k)
    | some ws ↦
        let new = with_interrupt vector (first fresh ws) in
        let (done, k') = d.set_registers (pending_interruption ∷ []) (new ∷ []) k in
        (if done then none else some failed, k')
  ]

  abbrev on_kernel {ℓ} :
      {A : Type ℓ} → A → (K → A × K) → Option (WhpxVp C K W) → A × Option (WhpxVp C K W)
  on_kernel lost f none = (lost, none)
  on_kernel lost f (some vp) =
      let (result, k) = f vp.kernel in (result, some (record vp { kernel = k }))

  -- The state is `none` after a failed assertion. StepImpl is the one of VirtualProcessor, and a window for
  -- interrupts is not asked for.
  unfoldable pub whpx_backend : Backend (Option (WhpxVp C K W))
  unfolding run_impl prepare_interrupt inject_interrupt
  whpx_backend = record {
    run_impl = λ o. elim (o >>= run_impl) [
      | none ↦ (VpExecutionStatus.failed, none)
      | some (status, vp) ↦ (status, some vp)
    ];
    step_impl = λ o. (VpExecutionStatus.unsupported, o);
    prepare_interrupt = λ vector. on_kernel true prepare_interrupt;
    inject_interrupt = λ vector. on_kernel (some failed) (inject_interrupt vector);
    can_inject_interrupt = λ o. true;
    request_interrupt_window = λ o. o;
  }
