-- ===== src/Whpx/State.antt =====
-- WhpxVirtualProcessor of modules/whpx/src/whpx_vp.hpp, with what the hypervisor and its instruction
-- emulator give and take. The packets of the exit context that the backend only hands on to the emulator
-- are a parameter.
use virt.Base.{ℕ, Bool, Option}
use virt.Vm.Region.{Bytes}
use virt.Vp.Status.{VmExitReason}
use virt.Whpx.Names.{View}

-- WHV_RUN_VP_EXIT_REASON, as far as the backend names it.
pub data ExitReason : Type 0 where
  halt msr_access cpuid io_port_access memory_access interrupt_window canceled none exception :
      ExitReason
  unsupported_feature invalid_vp_register_value unrecoverable_exception other : ExitReason

-- VMExitInfo.msr of modules/core/include/virt86/vp/vp.hpp.
pub record MsrAccess : Type 0 where
  pub is_write : Bool
  pub msr_number : ℕ
  pub rax : ℕ
  pub rdx : ℕ

-- VMExitInfo.cpuid.
pub record CpuidAccess : Type 0 where
  pub rax : ℕ
  pub rcx : ℕ
  pub rdx : ℕ
  pub rbx : ℕ
  pub default_rax : ℕ
  pub default_rcx : ℕ
  pub default_rdx : ℕ
  pub default_rbx : ℕ

-- The hypervisor's MsrAccess and CpuidAccess have the same fields as those of VMExitInfo.
pub record ExitContext (C : Type 0) : Type 0 where
  pub exit_reason : ExitReason
  pub msr_access : MsrAccess
  pub cpuid_access : CpuidAccess
  pub packets : C

pub record ExitInfo : Type 0 where
  pub reason : VmExitReason
  pub msr : MsrAccess
  pub cpuid : CpuidAccess

-- WHV_EMULATOR_IO_ACCESS_INFO and WHV_EMULATOR_MEMORY_ACCESS_INFO. `data` of the second is the memory from
-- its address on.
pub record IoAccess : Type 0 where
  pub direction : ℕ
  pub port : ℕ
  pub access_size : ℕ
  pub value : ℕ

pub record MemoryAccess : Type 0 where
  pub gpa_address : ℕ
  pub direction : ℕ
  pub access_size : ℕ
  pub bytes : Bytes

-- The callbacks for I/O that the emulator was created with; `none` is a failed assertion.
pub record Callbacks (W : Type 0) : Type 0 where
  pub io_port : IoAccess → W → IoAccess × W
  pub memory : MemoryAccess → W → Option (MemoryAccess × W)

-- WHvRunVirtualProcessor, whose `none` is a result other than S_OK; WHvEmulatorTryIoEmulation and
-- WHvEmulatorTryMmioEmulation, whose results are that the result is S_OK and EmulationSuccessful, or `none`
-- after an assertion failed in a callback; and WHvCancelRunVirtualProcessor.
pub record RunCalls (C K W : Type 0) : Type 0 where
  pub run : K → Option (ExitContext C) × K
  pub try_io : Callbacks W → C → K × W → Option ((Bool × Bool) × (K × W))
  pub try_mmio : Callbacks W → C → K × W → Option ((Bool × Bool) × (K × W))
  pub cancel_run : K → Bool × K

-- PendingInterruption, with the values TRUE and WHvX64PendingInterrupt.
pub record PendingViews (V : Type 0) : Type 0 where
  pub interruption_pending : View V ℕ
  pub interruption_type : View V ℕ
  pub interruption_vector : View V ℕ
  pub one : ℕ
  pub pending_interrupt : ℕ

pub record WhpxVp (C K W : Type 0) : Type 0 where
  pub exit_context : ExitContext C
  pub exit_info : ExitInfo
  pub kernel : K
  pub world : W
