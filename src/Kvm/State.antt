-- ===== src/Kvm/State.antt =====
-- What a virtual processor of KVM keeps besides its registers: the members of KvmVirtualProcessor in
-- modules/kvm/src/kvm_vp.hpp, the page that the kernel shares with it, and the kernel's calls.
use virt.Base.{ℕ, Bool}
use virt.Vm.Region.{Bytes}
use virt.Vp.Status.{VmExitReason}
use virt.Kvm.Vcpu.{Vcpu}

-- The values of kvm_run.exit_reason that the backend names.
pub data ExitReason : Type 0 where
  hlt intr irq_window_open exception shutdown unknown io mmio debug other : ExitReason

-- The fields of kvm_run that the backend names, of each member of its union the own ones. `out` says
-- that io.direction is KVM_EXIT_IO_OUT, and `page` is the memory from the structure's address on.
pub record KvmRun : Type 0 where
  pub exit_reason : ExitReason
  pub exception : ℕ
  pub out : Bool
  pub size : ℕ
  pub port : ℕ
  pub count : ℕ
  pub data_offset : ℕ
  pub phys_addr : ℕ
  pub len : ℕ
  pub is_write : Bool
  pub data_bytes : Bytes
  pub dr6 : ℕ
  pub pc : ℕ
  pub request_interrupt_window : ℕ
  pub ready_for_interrupt_injection : ℕ
  pub page : Bytes

-- kvm_guest_debug: the bits of `control` that the backend names, and arch.debugreg.
pub record GuestDebug : Type 0 where
  pub enable : Bool
  pub single_step : Bool
  pub use_sw_bp : Bool
  pub use_hw_bp : Bool
  pub debugreg : ℕ → ℕ

-- m_exitInfo, as far as the backend sets it.
pub record ExitInfo : Type 0 where
  pub reason : VmExitReason
  pub exception_code : ℕ

-- `world` is what the callbacks for I/O act on.
pub record Exec (K W : Type 0) : Type 0 where
  pub vcpu : Vcpu K
  pub kvm_run : KvmRun
  pub debug : GuestDebug
  pub exit_info : ExitInfo
  pub world : W

-- KVM_RUN, KVM_SET_GUEST_DEBUG and KVM_INTERRUPT; false is a negative result.
pub record Calls (K : Type 0) : Type 0 where
  pub run : KvmRun → K → Bool × KvmRun × K
  pub set_guest_debug : GuestDebug → K → Bool × K
  pub interrupt : ℕ → K → Bool × K
