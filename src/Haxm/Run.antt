-- ===== src/Haxm/Run.antt =====
-- Execution on HAXM, of modules/haxm/src/common/haxm_vp.cpp: UpdateRegisters, RefreshRegisters, RunImpl,
-- StepImpl, SetDebug and the interrupts, as the backend of the processor that modules/core drives.
use virt.Base.{ℕ, Bool, true, false, not, ◌==◌, ◌||◌, if◌then◌else◌, Option, none, some, ◌>>=◌}
use virt.Vm.Io.{IoHandlers}
use virt.Vp.Status.{Failure, failed, VpExecutionStatus, VmExitReason}
use virt.Vp.Interrupts.{Backend}
use virt.Haxm.State.{SysImpl, HaxmVp}
use virt.Haxm.Exit.{handle_exec_result}

abbrev step_reason : VmExitReason → VmExitReason
step_reason VmExitReason.software_breakpoint = VmExitReason.step
step_reason reason = reason

module _ {R F K W : Type 0} (sys : SysImpl R F K) (h : IoHandlers W) where
  -- Whether the driver took the registers is not looked at.
  unfoldable pub update_registers : HaxmVp R F K W → HaxmVp R F K W
  update_registers x =
      let y =
        if x.regs_changed
        then record x { kernel = (sys.set_registers x.regs x.kernel).1; regs_changed = false }
        else x in
      if y.fpu_regs_changed
      then record y {
        kernel = (sys.set_fpu_registers y.fpu_regs y.kernel).1;
        fpu_regs_changed = false;
      }
      else y

  abbrev pub fetch {ℓ} :
      {A : Type ℓ}
      → Option A
      → (A → HaxmVp R F K W)
      → HaxmVp R F K W
      → (HaxmVp R F K W → Bool × HaxmVp R F K W)
      → Bool × HaxmVp R F K W
  fetch none set x next = (false, x)
  fetch (some a) set x next = next (set a)

  unfoldable pub refresh_registers : HaxmVp R F K W → Bool × HaxmVp R F K W
  refresh_registers x =
      if x.regs_dirty
      then (fetch (sys.get_registers x.kernel) (λ r. record x { regs = r }) x
          (λ y.
            fetch (sys.get_fpu_registers y.kernel) (λ f. record y { fpu_regs = f }) y
              (λ z. (true, record z { regs_dirty = false }))))
      else (true, x)

  unfoldable pub run_impl : HaxmVp R F K W → Option (VpExecutionStatus × HaxmVp R F K W)
  unfolding update_registers handle_exec_result
  run_impl x =
      let y = update_registers x in
      let (done, t, page, kernel) = sys.run y.tunnel y.io_tunnel y.kernel in
      let z = record y { tunnel = t; io_tunnel = page; kernel = kernel } in
      if done
      then (handle_exec_result h z >>= λ w. some (VpExecutionStatus.ok, w))
      else some (VpExecutionStatus.failed, z)

  unfoldable pub set_debug : HaxmVp R F K W → Bool × HaxmVp R F K W
  set_debug x =
      let debug = record x.debug {
        enable = x.debug.step || x.debug.use_sw_bp || x.debug.use_hw_bp;
      } in
      let (done, kernel) = sys.set_debug debug x.kernel in
      (done, record x { debug = debug; kernel = kernel })

  abbrev single_step : Bool → HaxmVp R F K W → HaxmVp R F K W
  single_step on x = record x { debug = record x.debug { step = on } }

  -- What follows the run in StepImpl.
  abbrev end_step : VpExecutionStatus × HaxmVp R F K W → Option (VpExecutionStatus × HaxmVp R F K W)
  end_step (status, x) =
      let (disabled, y) = set_debug (single_step false x) in
      let handled = handle_exec_result h y >>= λ z. some (
        VpExecutionStatus.ok,
        record z { exit_info = record z.exit_info { reason = step_reason z.exit_info.reason } },
      ) in
      if disabled
      then elim status [ VpExecutionStatus.ok ↦ handled | other ↦ some (other, y) ]
      else some (VpExecutionStatus.failed, y)

  unfoldable pub step_impl : HaxmVp R F K W → Option (VpExecutionStatus × HaxmVp R F K W)
  unfolding set_debug run_impl handle_exec_result
  step_impl x =
      let (enabled, y) = set_debug (single_step true x) in
      if enabled then (run_impl y >>= end_step) else some (VpExecutionStatus.failed, y)

  unfoldable pub inject_interrupt : ℕ → HaxmVp R F K W → Option Failure × HaxmVp R F K W
  inject_interrupt vector x =
      let (done, kernel) = sys.inject_interrupt vector x.kernel in
      let y = record x { kernel = kernel } in
      if done
      then (none, record y { tunnel = record y.tunnel { request_interrupt_window = 0 } })
      else (some failed, y)

  unfoldable pub can_inject_interrupt : HaxmVp R F K W → Bool
  can_inject_interrupt x = not (x.tunnel.ready_for_interrupt_injection == 0)

  unfoldable pub request_interrupt_window : HaxmVp R F K W → HaxmVp R F K W
  request_interrupt_window x = record x {
    tunnel = record x.tunnel { request_interrupt_window = 1 };
  }

  -- The state is `none` after a failed assertion.
  abbrev lift_run :
      (HaxmVp R F K W → Option (VpExecutionStatus × HaxmVp R F K W))
      → Option (HaxmVp R F K W)
      → VpExecutionStatus × Option (HaxmVp R F K W)
  lift_run f o = elim (o >>= f) [
    | none ↦ (VpExecutionStatus.failed, none)
    | some (status, x) ↦ (status, some x)
  ]

  unfoldable pub haxm_backend : Backend (Option (HaxmVp R F K W))
  unfolding run_impl step_impl inject_interrupt can_inject_interrupt request_interrupt_window
  haxm_backend = record {
    run_impl = lift_run run_impl;
    step_impl = lift_run step_impl;
    prepare_interrupt = λ _ o. (true, o);
    inject_interrupt = λ vector. elim [
      | none ↦ (some failed, none)
      | some x ↦ let (status, y) = inject_interrupt vector x in (status, some y)
    ];
    can_inject_interrupt = elim [ none ↦ false | some x ↦ can_inject_interrupt x ];
    request_interrupt_window = elim [ none ↦ none | some x ↦ some (request_interrupt_window x) ];
  }
