-- ===== src/Haxm/State.antt =====
-- The members of HaxmVirtualProcessor in modules/haxm/src/common/haxm_vp.hpp that execution uses, and the
-- memory that the driver shares with it (interface/hax_interface.hpp). The register structures and the
-- driver's state are parameters.
use virt.Base.{ℕ, Bool, Option}
use virt.Vm.Region.{Bytes}
use virt.Kvm.State.{ExitInfo}

-- The values of _exit_status that the backend names.
pub data ExitStatus : Type 0 where
  hlt interrupt paused mmio realmode unknown statechange io fast_mmio debug other : ExitStatus

-- hax_tunnel. `out` says that io._direction is HAX_IO_OUT, and `df` that io._df is not 0.
pub record Tunnel : Type 0 where
  pub exit_status : ExitStatus
  pub out : Bool
  pub df : Bool
  pub size : ℕ
  pub port : ℕ
  pub count : ℕ
  pub dr6 : ℕ
  pub rip : ℕ
  pub ready_for_interrupt_injection : ℕ
  pub request_interrupt_window : ℕ

-- m_debug: control and dr.
pub record HaxDebug : Type 0 where
  pub enable : Bool
  pub step : Bool
  pub use_sw_bp : Bool
  pub use_hw_bp : Bool
  pub dr : ℕ → ℕ

-- The driver's calls, through HaxmVirtualProcessorSysImpl.
pub record SysImpl (R F K : Type 0) : Type 0 where
  pub run : Tunnel → Bytes → K → Bool × Tunnel × Bytes × K
  pub set_registers : R → K → Bool × K
  pub set_fpu_registers : F → K → Bool × K
  pub get_registers : K → Option R
  pub get_fpu_registers : K → Option F
  pub set_debug : HaxDebug → K → Bool × K
  pub inject_interrupt : ℕ → K → Bool × K

-- `io_tunnel` is the memory from m_ioTunnel on.
pub record HaxmVp (R F K W : Type 0) : Type 0 where
  pub regs : R
  pub fpu_regs : F
  pub regs_dirty : Bool
  pub regs_changed : Bool
  pub fpu_regs_changed : Bool
  pub tunnel : Tunnel
  pub io_tunnel : Bytes
  pub debug : HaxDebug
  pub exit_info : ExitInfo
  pub world : W
  pub kernel : K
