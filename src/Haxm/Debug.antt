-- ===== src/Haxm/Debug.antt =====
-- Breakpoints of modules/haxm/src/common/haxm_vp.cpp: EnableSoftwareBreakpoints, SetHardwareBreakpoints,
-- ClearHardwareBreakpoints and GetBreakpointAddress. The loop over the four breakpoints is that of KVM.
use virt.Base.{ℕ, ◌==◌, Bool, true, false, ◌&&◌, if◌then◌else◌, bits, Option, none, some}
use virt.Vm.Io.{IoHandlers}
use virt.Vp.Status.{Failure, failed, invalid_arguments, breakpoint_never_hit}
use virt.Kvm.Debug.{Breakpoint, any_enabled, set_breakpoints}
use virt.Haxm.State.{SysImpl, HaxmVp}
use virt.Haxm.Run.{set_debug}

module _ {R F K W : Type 0} (sys : SysImpl R F K) (h : IoHandlers W) where
  abbrev checked : Bool × HaxmVp R F K W → Option Failure × HaxmVp R F K W
  checked (done, x) = (if done then none else some failed, x)

  unfoldable pub enable_software_breakpoints :
      Bool → HaxmVp R F K W → Option Failure × HaxmVp R F K W
  unfolding set_debug
  enable_software_breakpoints enable x =
      checked (set_debug sys h (record x { debug = record x.debug { use_sw_bp = enable } }))

  unfoldable pub clear_hardware_breakpoints : HaxmVp R F K W → Option Failure × HaxmVp R F K W
  unfolding set_debug
  clear_hardware_breakpoints x =
      checked
        (set_debug sys h (record x { debug = record x.debug { use_hw_bp = false; dr = λ _. 0 } }))

  unfoldable pub set_hardware_breakpoints :
      (ℕ → Breakpoint) → HaxmVp R F K W → Option Failure × HaxmVp R F K W
  unfolding set_debug clear_hardware_breakpoints any_enabled set_breakpoints
  set_hardware_breakpoints bp x =
      if any_enabled bp 0 4
      then checked (
          set_debug sys h (record x {
            debug = record x.debug { use_hw_bp = true; dr = set_breakpoints bp 0 4 x.debug.dr };
          }))
      else clear_hardware_breakpoints x

  -- `null` is that the caller's pointer is null; the second component is what is written to it, if it is.
  unfoldable pub get_breakpoint_address : Bool → HaxmVp R F K W → Option Failure × Option ℕ
  get_breakpoint_address null x =
      let hit = bits 0 4 x.tunnel.dr6 in
      if null
      then (some invalid_arguments, none)
      else if hit == 0 && x.tunnel.rip == 0
      then (some breakpoint_never_hit, none)
      else if bits 0 1 hit == 1
      then (none, some (x.debug.dr 0))
      else if bits 1 1 hit == 1
      then (none, some (x.debug.dr 1))
      else if bits 2 1 hit == 1
      then (none, some (x.debug.dr 2))
      else if bits 3 1 hit == 1
      then (none, some (x.debug.dr 3))
      else (none, some x.tunnel.rip)
