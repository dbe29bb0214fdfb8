-- ===== src/Kvm/Run.antt =====
-- Execution on KVM, of modules/kvm/src/kvm_vp.cpp: RunImpl, StepImpl, the injection of interrupts, and
-- these operations as the backend of the processor that modules/core drives.
pub mod Registers
pub mod Steps
pub mod Twice
use virt.Base.{ℕ, Bool, true, false, not, ◌==◌, if◌then◌else◌, Option, none, some, ◌>>=◌}
use virt.Vm.Io.{IoHandlers}
use virt.Vp.Status.{Failure, failed, VpExecutionStatus, VmExitReason}
use virt.Vp.Interrupts.{Backend}
use virt.Kvm.Vcpu.{Kernel, Vcpu, update_registers}
use virt.Kvm.State.{Exec, Calls}
use virt.Kvm.Exit.{handle_exec_result}
use virt.Kvm.Debug.{set_debug}

-- StepImpl reports a software breakpoint as a step.
abbrev step_reason : VmExitReason → VmExitReason
step_reason VmExitReason.software_breakpoint = VmExitReason.step
step_reason reason = reason

module _ {K W : Type 0} (k : Kernel K) (calls : Calls K) (h : IoHandlers W) where
  -- KVM_RUN and what follows it.
  unfoldable pub enter_guest : Exec K W → Option (VpExecutionStatus × Exec K W)
  unfolding handle_exec_result
  enter_guest x =
      let (done, r, s) = calls.run x.kvm_run x.vcpu.kernel in
      let y = record x { kvm_run = r; vcpu = record x.vcpu { kernel = s } } in
      if done
      then (handle_exec_result h y >>= λ z. some (VpExecutionStatus.ok, z))
      else some (VpExecutionStatus.failed, y)

  unfoldable pub run_impl : Exec K W → Option (VpExecutionStatus × Exec K W)
  unfolding update_registers enter_guest
  run_impl x =
      let (sent, vcpu) = update_registers k x.vcpu in
      let y = record x { vcpu = vcpu } in
      if sent then enter_guest y else some (VpExecutionStatus.failed, y)

  abbrev pub single_step : Bool → Exec K W → Exec K W
  single_step on x = record x { debug = record x.debug { single_step = on } }

  -- What follows the run in StepImpl.
  abbrev pub end_step : VpExecutionStatus × Exec K W → Option (VpExecutionStatus × Exec K W)
  end_step (status, x) =
      let (disabled, y) = set_debug calls (single_step false x) in
      let handled = handle_exec_result h y >>= λ z. some (
        VpExecutionStatus.ok,
        record z { exit_info = record z.exit_info { reason = step_reason z.exit_info.reason } },
      ) in
      if disabled
      then elim status [ VpExecutionStatus.ok ↦ handled | other ↦ some (other, y) ]
      else some (VpExecutionStatus.failed, y)

  unfoldable pub step_impl : Exec K W → Option (VpExecutionStatus × Exec K W)
  unfolding set_debug run_impl handle_exec_result
  step_impl x =
      let (enabled, y) = set_debug calls (single_step true x) in
      if enabled then (run_impl y >>= end_step) else some (VpExecutionStatus.failed, y)

  unfoldable pub inject_interrupt : ℕ → Exec K W → Option Failure × Exec K W
  inject_interrupt vector x =
      let (done, kernel) = calls.interrupt vector x.vcpu.kernel in
      let y = record x { vcpu = record x.vcpu { kernel = kernel } } in
      if done
      then (none, record y { kvm_run = record y.kvm_run { request_interrupt_window = 0 } })
      else (some failed, y)

  unfoldable pub can_inject_interrupt : Exec K W → Bool
  can_inject_interrupt x = not (x.kvm_run.ready_for_interrupt_injection == 0)

  unfoldable pub request_interrupt_window : Exec K W → Exec K W
  request_interrupt_window x = record x {
    kvm_run = record x.kvm_run { request_interrupt_window = 1 };
  }

  -- The state is `none` after a failed assertion.
  abbrev lift_run :
      (Exec K W → Option (VpExecutionStatus × Exec K W))
      → Option (Exec K W)
      → VpExecutionStatus × Option (Exec K W)
  lift_run f o = elim (o >>= f) [
    | none ↦ (VpExecutionStatus.failed, none)
    | some (status, x) ↦ (status, some x)
  ]

  unfoldable pub kvm_backend : Backend (Option (Exec K W))
  unfolding run_impl step_impl inject_interrupt can_inject_interrupt request_interrupt_window
  kvm_backend = record {
    run_impl = lift_run run_impl;
    step_impl = lift_run step_impl;
    prepare_interrupt = λ _ o. (true, o);
    inject_interrupt = λ vector. elim [
      | none ↦ (some failed, none)
      | some x ↦ let (status, y) = inject_interrupt vector x in (status, some y)
    ];
    can_inject_interrupt = elim [ none ↦ false | some x ↦ can_inject_interrupt x ];
    request_interrupt_window = elim [ none ↦ none | some x ↦ some (request_interrupt_window x) ];
  }
