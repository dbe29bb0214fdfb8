-- ===== src/Vp/Optional.antt =====
-- The operations of modules/core/src/vp/vp.cpp that a platform may leave out: what they return if it
-- does.
use virt.Base.{ℕ, Bool}
use virt.Vp.Status.{Failure, unsupported, VpExecutionStatus}

unfoldable pub get_virtual_tsc_offset : Failure
get_virtual_tsc_offset = unsupported

unfoldable pub set_virtual_tsc_offset : ℕ → Failure
set_virtual_tsc_offset offset = unsupported

unfoldable pub enable_software_breakpoints : Bool → Failure
enable_software_breakpoints enable = unsupported

-- `breakpoints` is the caller's structure, which is not looked at.
unfoldable pub set_hardware_breakpoints : {A : Type 0} → A → Failure
set_hardware_breakpoints breakpoints = unsupported

unfoldable pub clear_hardware_breakpoints : Failure
clear_hardware_breakpoints = unsupported

unfoldable pub get_breakpoint_address : Failure
get_breakpoint_address = unsupported

unfoldable pub step_impl_default : VpExecutionStatus
step_impl_default = VpExecutionStatus.unsupported
